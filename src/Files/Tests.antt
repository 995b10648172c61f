-- ===== src/Files/Tests.antt =====
-- The files on concrete numbers.
use bvex_vdif_rfsoc.Base.{
  ℕ, zero, suc, ◌≤◌, ◌%◌, ◌*◌, ◌≡◌, refl, [], ◌∷◌, some, none, true, false, arith,
}
use bvex_vdif_rfsoc.Base.{replicate, length-replicate, ◌⊎◌}
use bvex_vdif_rfsoc.Fixtures.{memory, length-memory}
use bvex_vdif_rfsoc.Setup.{telemetry_init}
use bvex_vdif_rfsoc.Disk.{
  Output, Statvfs, OFile, live, Store, FinalCalls, wrote, interrupted, page, OpenCalls, no_room,
  absent,
}
use bvex_vdif_rfsoc.Files.{choose_disk, write_length, slab_write}
use bvex_vdif_rfsoc.Files.Disks.{Chosen, AllFull, choose_disk_lem}
use bvex_vdif_rfsoc.Files.Slab.{write_length-bounds}
use bvex_vdif_rfsoc.Files.Open.{Opened, NotOpened, file_open-cases}
use bvex_vdif_rfsoc.Files.Written.{Appended, slab_write-Appended}
use bvex_vdif_rfsoc.Files.Seal.{Finalized, file_finalize-Finalized}

-- Three disks: one full, one that does not answer, one with room.
abbrev three_disks : Statvfs
three_disks zero = some (1000, 4096)
three_disks (suc zero) = none
three_disks (suc (suc d)) = some (5000000, 4096)

abbrev direct : Output
direct = record { ndisks = 3; min_free = 12000000000; use_odirect = true; secs_per_file = 10 }

abbrev an_open_file : OFile
an_open_file = record {
  fd = live;
  path = record { on_disk = 2; start_utc = 1767225720; of_thread = 0 };
  disk = 2;
  frames = 1;
  ref_epoch = 52;
  thread = 0;
  station = 0;
  first_sec = 120;
  first_frame = 0;
  last_sec = 120;
  last_frame = 0;
}

abbrev one_frame : Store
one_frame = record {
  written = replicate 8032 5;
  reserved = 16384;
  sealed = [];
  sidecars = [];
  cur_file = none;
  cur_disk = 2;
  free_bytes = [];
  alarm = false;
}

abbrev final_calls : FinalCalls
final_calls = record {
  truncated = true;
  renamed = true;
  sidecar_opened = true;
  statvfs = three_disks;
}

third_disk : choose_disk direct three_disks 3 0 ≡ some 2
unfolding choose_disk
third_disk = refl

choose_disk_lem_example :
    ((found : ℕ) × Chosen direct three_disks 3 0 found) ⊎ AllFull direct three_disks 3 0
choose_disk_lem_example = choose_disk_lem direct three_disks 3 0

slab_write-Appended_example :
    Appended direct memory 0 2 an_open_file [] telemetry_init
      (wrote 4096 ∷ interrupted ∷ wrote 12288 ∷ [])
      (slab_write direct
        (wrote 4096 ∷ interrupted ∷ wrote 12288 ∷ [])
        memory
        0
        2
        an_open_file
        []
        telemetry_init)
unfolding write_length
slab_write-Appended_example =
    slab_write-Appended direct (wrote 4096 ∷ interrupted ∷ wrote 12288 ∷ []) memory 0 2 an_open_file
      [] telemetry_init (omega arith) (omega (arith, length-memory))

file_finalize-Finalized_example : Finalized direct final_calls 0 an_open_file one_frame
file_finalize-Finalized_example =
    file_finalize-Finalized direct final_calls 0 an_open_file one_frame refl refl
      (omega (arith, length-replicate {A = ℕ} 8032 5))

write_length-bounds_example :
    let wlen = write_length direct (100 * 8032) in
    (100 * 8032 ≤ wlen) × (wlen ≤ 128 * 8032) × (direct.use_odirect ≡ true → wlen % page ≡ 0)
write_length-bounds_example = write_length-bounds direct 100 128 (omega arith) refl

abbrev no_space_left : OpenCalls
no_space_left = record { statvfs = three_disks; opened = true; fallocate = no_room }

abbrev no_file_yet : OFile
no_file_yet = record an_open_file { fd = absent; frames = 0 }

file_open-cases_example :
    Opened direct no_space_left memory 0 0 no_file_yet one_frame
    ⊎ NotOpened direct no_space_left memory 0 0 no_file_yet one_frame
file_open-cases_example = file_open-cases direct no_space_left memory 0 0 no_file_yet one_frame
