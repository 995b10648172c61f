-- ===== src/Writer/Refine.antt =====
-- `write_slab`: every slab's frames come after those recorded before, or the recording stops with
-- the ones recorded before.
use bvex_vdif_rfsoc.Base.{
  ℕ, ◌+◌, ◌*◌, ◌^◌, ◌≤◌, ◌<◌, ◌≡◌, refl, ap, ap₂, sym, ◌∙◌, ◌⊎◌, inl, inr, add64, sub32,
}
use bvex_vdif_rfsoc.Base.{List, ◌++◌, arith, length, block, true, false, Bool}
use bvex_vdif_rfsoc.Vdif.{vdif_frame_bytes, Vhdr, parse_vhdr}
use bvex_vdif_rfsoc.Telemetry.{RecState}
use bvex_vdif_rfsoc.Spsc.{spsc_push}
use bvex_vdif_rfsoc.Capture.{SlabDesc, Shared}
use bvex_vdif_rfsoc.Disk.{Output, OFile, absent, live, WriteResult, complete, SlabWritten}
use bvex_vdif_rfsoc.Base.{◌≢◌, if◌then◌else◌}
use bvex_vdif_rfsoc.Files.{write_length, has_room}
use bvex_vdif_rfsoc.Files.Open.{Refuses}
use bvex_vdif_rfsoc.Files.Seal.{exact}
use bvex_vdif_rfsoc.Files.Slab.{Settles, Fails, write_length_lem}
use bvex_vdif_rfsoc.Files.Written.{Appended}
use bvex_vdif_rfsoc.Writer.{
  Writer, SlabCalls, Handled, done, halted, put_writer, put_shared, give_back, disk_full,
}
use bvex_vdif_rfsoc.Writer.Kept.{Kept, Kept-trans, Kept-put_shared}
use bvex_vdif_rfsoc.Writer.Steps.{saved, IsOpen, whole_exact, whole_saved}

-- What holds between rounds: a file that is open holds its frames, perhaps with padding.
pub record IsWriting (w : Writer) : Type 0 where
  pub live : w.have_file ≡ true → w.file.fd ≡ live
  pub idle : w.have_file ≡ false → w.file.fd ≡ absent
  pub holds : w.have_file ≡ true → exact w.file ≤ length w.store.written

-- What the system calls must answer: `ftruncate` succeeds, and the writes end.
pub record Answers (c : Output) (calls : SlabCalls) (frames : ℕ) : Type 0 where
  pub trims_old : calls.close_old.truncated ≡ true
  pub trims_full : calls.close_full.truncated ≡ true
  pub settles_first : Settles calls.write_first (write_length c (frames * vdif_frame_bytes))
  pub settles_again : Settles calls.write_again (write_length c (frames * vdif_frame_bytes))

-- The slab is on disk after what was there before, and back in the pool.
pub record Recorded (c : Output) (idx o : ℕ) (d : SlabDesc) (w : Writer) (sh : Shared) (r : Handled)
    : Type 0 where
  pub after : Writer
  pub shared : Shared
  pub returns : r ≡ done after shared
  pub bytes : saved after ≡ saved w ++ block sh.arena o (d.frames * vdif_frame_bytes)
  pub have : after.have_file ≡ true
  pub tag : after.cur_tag ≡ d.file_id
  pub writing : IsWriting after
  pub padding :
      length after.store.written + d.frames * vdif_frame_bytes
      ≡ exact after.file + write_length c (d.frames * vdif_frame_bytes)
  pub pool : shared.q_free ≡ (spsc_push sh.q_free idx).0
  pub counted : shared.tel.frames_written ≡ add64 sh.tel.frames_written d.frames
  pub kept : Kept o (write_length c (d.frames * vdif_frame_bytes)) sh shared
  pub few : after.file.frames ≤ w.file.frames + d.frames

-- The recording stops, with what was there before.
pub record Stopped (idx : ℕ) (w : Writer) (sh : Shared) (r : Handled) : Type 0 where
  pub after : Writer
  pub shared : Shared
  pub returns : r ≡ halted after shared
  pub bytes : saved after ≡ saved w
  pub state : shared.tel.state ≡ RecState.stopped_disk_full
  pub stop : shared.tel.stop ≡ true
  pub alarm : after.store.alarm ≡ true
  pub pool : shared.q_free ≡ (spsc_push sh.q_free idx).0

pub true≢false : true ≡ false → ⊥
true≢false e = cc

-- The disk on which the search for a new file starts, before the slab is handled.
abbrev pub first_disk : Writer → ℕ
first_disk w = if w.have_file then w.file.disk else w.start_disk

-- A disk on which the slab was written first: that of the open file, or one that had room.
abbrev pub IsTried : Output → SlabCalls → Writer → ℕ → Type 0
IsTried c calls w disk = (disk ≡ w.file.disk) ⊎ (has_room c (calls.open_new.statvfs disk) ≡ true)

-- No file for the slab after disk `disk`, or not the whole slab on the file that was opened there.
abbrev pub NoSecond : Output → SlabCalls → ℕ → ℕ → Type 0
NoSecond c calls frames disk =
    Refuses c calls.open_next (disk + 1)
    ⊎ Fails calls.write_again (write_length c (frames * vdif_frame_bytes))

-- Why the recording stops: a new file was needed and could not be opened; or the disk filled up
-- within the slab, and the second attempt failed too.
abbrev pub IsRefused : Output → SlabCalls → SlabDesc → Writer → Type 0
IsRefused c calls d w =
    ((w.have_file ≡ true → d.file_id ≢ w.cur_tag) × Refuses c calls.open_new (first_disk w))
    ⊎ Fails calls.write_first (write_length c (d.frames * vdif_frame_bytes))
      × ((disk : ℕ) × IsTried c calls w disk × NoSecond c calls d.frames disk)

-- The round ended in one of the two ways, the second with a reason.
abbrev pub EndsFor : Type 0 → Output → ℕ → ℕ → SlabDesc → Writer → Shared → Handled → Type 0
EndsFor P c idx o d w sh r = Recorded c idx o d w sh r ⊎ Stopped idx w sh r × P

abbrev pub Ends : Output → SlabCalls → ℕ → ℕ → SlabDesc → Writer → Shared → Handled → Type 0
Ends c calls idx o d w sh r = EndsFor (IsRefused c calls d w) c idx o d w sh r

pub EndsFor-map :
    {P Q : Type 0} {c : Output} {idx o : ℕ} {d : SlabDesc} {w : Writer} {sh : Shared} {r : Handled}
    → (P → Q)
    → EndsFor P c idx o d w sh r
    → EndsFor Q c idx o d w sh r
EndsFor-map f (inl k) = inl k
EndsFor-map f (inr (k, p)) = inr (k, f p)

-- From a later point of the round to its beginning.
pub record Since (c : Output) (o : ℕ) (d : SlabDesc) (w w' : Writer) (sh sh' : Shared)
    : Type 0 where
  pub bytes : saved w' ≡ saved w
  pub slab :
      block sh'.arena o (d.frames * vdif_frame_bytes)
      ≡ block sh.arena o (d.frames * vdif_frame_bytes)
  pub pool : sh'.q_free ≡ sh.q_free
  pub counted : sh'.tel.frames_written ≡ sh.tel.frames_written
  pub kept : Kept o (write_length c (d.frames * vdif_frame_bytes)) sh sh'

pub Stopped-Since :
    {c : Output} {idx o : ℕ} {d : SlabDesc} {w w' : Writer} {sh sh' : Shared} {r : Handled}
    → Since c o d w w' sh sh'
    → Stopped idx w' sh' r
    → Stopped idx w sh r
Stopped-Since {idx = idx} s k = record {
  after = k.after;
  shared = k.shared;
  returns = k.returns;
  bytes = k.bytes ∙ s.bytes;
  state = k.state;
  stop = k.stop;
  alarm = k.alarm;
  pool = k.pool ∙ ap (λ q. (spsc_push q idx).0) s.pool;
}

pub Ends-Since :
    {P : Type 0} {c : Output} {idx o : ℕ} {d : SlabDesc} {w w' : Writer} {sh sh' : Shared}
    {r : Handled}
    → Since c o d w w' sh sh'
    → w'.file.frames ≤ w.file.frames
    → EndsFor P c idx o d w' sh' r
    → EndsFor P c idx o d w sh r
Ends-Since {idx = idx} {d = d} s fewer (inl k) = inl (record {
  after = k.after;
  shared = k.shared;
  returns = k.returns;
  bytes = k.bytes ∙ ap₂ ◌++◌ s.bytes s.slab;
  have = k.have;
  tag = k.tag;
  writing = k.writing;
  padding = k.padding;
  pool = k.pool ∙ ap (λ q. (spsc_push q idx).0) s.pool;
  counted = k.counted ∙ ap (λ (n : ℕ). add64 n d.frames) s.counted;
  kept = Kept-trans s.kept k.kept;
  few = omega (arith, k.few, fewer);
})
Ends-Since s fewer (inr (k, p)) = inr (Stopped-Since s k, p)

module _ (c : Output) (idx o : ℕ) (d : SlabDesc) where
  pub stop-Stopped : (w : Writer) (sh : Shared) → Stopped idx w sh (disk_full idx w sh)
  unfolding disk_full
  stop-Stopped w sh = record {
    after = record w { store = record w.store { alarm = true } };
    shared = record sh {
      q_free = (spsc_push sh.q_free idx).0;
      tel = record sh.tel { state = RecState.stopped_disk_full; stop = true };
    };
    returns = refl;
    bytes = refl;
    state = refl;
    stop = refl;
    alarm = refl;
    pool = refl;
  }

  -- The end of a round whose write was complete.
  pub finish :
      (results : List WriteResult) (w : Writer) (sh : Shared) (r : SlabWritten) (b : Bool) (t : ℕ)
      → IsOpen w
      → w.file.frames + d.frames < 2 ^ 64
      → Appended c sh.arena o d.frames w.file w.store.written sh.tel results r
      → r.how ≡ complete
      → b ≡ true
      → t ≡ d.file_id
      → Recorded c idx o d w sh (
          give_back idx o d
            (record (put_writer r w) { have_file = b; cur_tag = t })
            (put_shared r sh))
  unfolding give_back
  finish results w sh r b t opened word a e eb et = record {
    after = record w {
      file = record r.file { last_sec = last.sec; last_frame = last.frame };
      store = record w.store { written = r.out };
      have_file = b;
      cur_tag = t;
    };
    shared = record (put_shared r sh) { q_free = (spsc_push sh.q_free idx).0 };
    returns = refl;
    bytes = whole_saved c sh.arena o d w sh.tel results r opened a word e;
    have = eb;
    tag = et;
    writing = record {
      live = λ x. ap (λ (f : OFile). f.fd) (a.file e) ∙ opened.fd;
      idle = λ x. absurd (true≢false (sym eb ∙ x));
      holds = λ x. omega (
        arith,
        whole_exact c sh.arena o d w sh.tel results r opened a word e,
        a.size e,
        opened.tight,
        write_length_lem c (d.frames * vdif_frame_bytes),
      );
    };
    padding = omega (
      arith,
      whole_exact c sh.arena o d w sh.tel results r opened a word e,
      a.size e,
      opened.tight,
    );
    pool = refl;
    counted = a.counted e;
    kept =
        Kept-trans (Kept-put_shared c o (d.frames * vdif_frame_bytes) r sh a.slab) (record {
          descs = refl;
          full = refl;
          running = refl;
          size = refl;
          blocks = λ p n h. refl;
        });
    few = omega (arith, ap (λ (f : OFile). f.frames) (a.file e));
  }
    where
      last : Vhdr
      last = parse_vhdr r.arena (o + sub32 d.frames 1 * vdif_frame_bytes)
