-- ===== src/Files/Open.antt =====
-- `file_open`: a new empty file on the first disk with room, or no file.
use bvex_vdif_rfsoc.Base.{ℕ, ◌-◌, ◌≤◌, ◌<◌, ◌≡◌, refl, ◌∙◌, ◌⊎◌, inl, inr}
use bvex_vdif_rfsoc.Base.{List, [], arith, true, false, Bool, some, none, ◌≢◌, sym}
use bvex_vdif_rfsoc.Vdif.{Vhdr, parse_vhdr}
use bvex_vdif_rfsoc.Calendar.{vdif_to_unix}
use bvex_vdif_rfsoc.Disk.{
  Output, OFile, absent, live, stale, Store, OpenCalls, Fallocate, allocated, no_room, unsupported,
}
use bvex_vdif_rfsoc.Files.{file_open, has_room}
use bvex_vdif_rfsoc.Files.Disks.{Chosen, AllFull, choose_disk_lem}
use bvex_vdif_rfsoc.Files.Seal.{open_bytes}

-- No disk from `start` on has room; or the first that has could not take the file: `open` failed, or
-- `fallocate` found no room.
abbrev pub Refuses : Output → OpenCalls → ℕ → Type 0
Refuses c calls start =
    ((e : ℕ) → start ≤ e → e < c.ndisks → has_room c (calls.statvfs e) ≡ false)
    ⊎ (d : ℕ) × Chosen c calls.statvfs (c.ndisks - start) start d
      × ((calls.opened ≡ false) ⊎ (calls.fallocate ≡ no_room))

absent≢stale : absent ≡ stale → ⊥
absent≢stale e = cc

true≢false : true ≡ false → ⊥
true≢false e = cc

allocated≢no_room : allocated ≡ no_room → ⊥
allocated≢no_room e = cc

unsupported≢no_room : unsupported ≡ no_room → ⊥
unsupported≢no_room e = cc

none≢some : {d : ℕ} → none ≡ some d → ⊥
none≢some e = cc

module _ (c : Output) (calls : OpenCalls) (m : List ℕ) (o start_disk : ℕ) (f : OFile)
    (st : Store) where
  abbrev hdr : Vhdr
  hdr = parse_vhdr m o

  pub record Opened : Type 0 where
    pub after : OFile
    pub store : Store
    pub returns : file_open c calls m o start_disk f st ≡ (true, after, store)
    pub fd : after.fd ≡ live
    pub empty : after.frames ≡ 0
    pub nothing : store.written ≡ []
    pub sealed : store.sealed ≡ st.sealed
    pub named : after.path ≡ record {
      on_disk = after.disk;
      start_utc = vdif_to_unix hdr.ref_epoch hdr.sec;
      of_thread = hdr.thread;
    }
    pub room : has_room c (calls.statvfs after.disk) ≡ true
    pub from : start_disk ≤ after.disk
    pub below : after.disk < c.ndisks
    pub shown : store.cur_file ≡ some after.path
    pub could : (calls.opened ≡ true) × (calls.fallocate ≢ no_room)
    pub first : (e : ℕ) → start_disk ≤ e → e < after.disk → has_room c (calls.statvfs e) ≡ false

  pub record NotOpened : Type 0 where
    pub after : OFile
    pub returns : file_open c calls m o start_disk f st ≡ (false, after, st)
    pub not_live : f.fd ≡ absent → (b : ℕ) (out : List ℕ) → open_bytes after.fd b out ≡ []
    pub why : Refuses c calls start_disk
    pub left : after.fd ≡ stale → (f.fd ≡ stale) ⊎ (calls.fallocate ≡ no_room)
    pub stays :
        (d : ℕ)
        → Chosen c calls.statvfs (c.ndisks - start_disk) start_disk d
        → calls.opened ≡ true
        → after.fd ≡ stale

  -- With a disk chosen.
  on_disk :
      (found : ℕ)
      → Chosen c calls.statvfs (c.ndisks - start_disk) start_disk found
      → (b : Bool) → calls.opened ≡ b
      → (a : Fallocate) → calls.fallocate ≡ a
      → Opened ⊎ NotOpened
  unfolding file_open
  on_disk found k false eb a ea = inr (record {
    after = (file_open c calls m o start_disk f st).1;
    returns = rw (k.returns, file_open, eb);
    not_live = λ e b out. rw (k.returns, file_open, eb);
    why = inr (found, k, inl eb);
    left = λ e. absurd (absent≢stale (rw (k.returns, file_open, eb) at e));
    stays = λ d kd e. absurd (true≢false (sym e ∙ eb));
  })
  on_disk found k true eb no_room ea = inr (record {
    after = (file_open c calls m o start_disk f st).1;
    returns = rw (k.returns, file_open, eb, ea);
    not_live = λ e b out. rw (k.returns, file_open, eb, ea);
    why = inr (found, k, inr ea);
    left = λ e. inr ea;
    stays = λ d kd e. rw (k.returns, file_open, eb, ea);
  })
  on_disk found k true eb allocated ea = inl (record {
    after = (file_open c calls m o start_disk f st).1;
    store = (file_open c calls m o start_disk f st).2;
    returns = rw (k.returns, file_open, eb, ea);
    fd = rw (k.returns, file_open, eb, ea);
    empty = rw (k.returns, file_open, eb, ea);
    nothing = rw (k.returns, file_open, eb, ea);
    sealed = rw (k.returns, file_open, eb, ea);
    named = rw (k.returns, file_open, eb, ea);
    room = rw (k.returns, file_open, eb, ea) k.room;
    from = rw (k.returns, file_open, eb, ea) k.from;
    below = rw (k.returns, file_open, eb, ea) (omega (arith, k.below, k.from));
    shown = rw (k.returns, file_open, eb, ea);
    could = (eb, λ e. allocated≢no_room (sym ea ∙ e));
    first = rw (k.returns, file_open, eb, ea) k.first;
  })
  on_disk found k true eb unsupported ea = inl (record {
    after = (file_open c calls m o start_disk f st).1;
    store = (file_open c calls m o start_disk f st).2;
    returns = rw (k.returns, file_open, eb, ea);
    fd = rw (k.returns, file_open, eb, ea);
    empty = rw (k.returns, file_open, eb, ea);
    nothing = rw (k.returns, file_open, eb, ea);
    sealed = rw (k.returns, file_open, eb, ea);
    named = rw (k.returns, file_open, eb, ea);
    room = rw (k.returns, file_open, eb, ea) k.room;
    from = rw (k.returns, file_open, eb, ea) k.from;
    below = rw (k.returns, file_open, eb, ea) (omega (arith, k.below, k.from));
    shown = rw (k.returns, file_open, eb, ea);
    could = (eb, λ e. unsupported≢no_room (sym ea ∙ e));
    first = rw (k.returns, file_open, eb, ea) k.first;
  })

  no_disk : AllFull c calls.statvfs (c.ndisks - start_disk) start_disk → NotOpened
  unfolding file_open
  no_disk k = record {
    after = f;
    returns = rw (k.returns, file_open);
    not_live = λ e b out. rw e;
    why = inl (λ e lo hi. k.all e lo (omega (arith, lo, hi)));
    left = λ e. inl e;
    stays = λ d kd e. absurd (none≢some (sym k.returns ∙ kd.returns));
  }

  -- `file_open` returns 0 exactly when a disk from the one to start from on has room, `open` succeeds
  -- on the first such disk, and `fallocate` does not find it full. Then there is a new empty file on
  -- that disk, named for the frame's second and thread. Otherwise it returns -1, and the files and the
  -- status are as before. When `open` succeeded but `fallocate` found no room, the number of the
  -- closed descriptor stays in `fd`, and it never gets there otherwise.
  pub file_open-cases : Opened ⊎ NotOpened
  file_open-cases = elim (choose_disk_lem c calls.statvfs (c.ndisks - start_disk) start_disk) [
    | inl (found, k) ↦ on_disk found k calls.opened refl calls.fallocate refl
    | inr k ↦ inr (no_disk k)
  ]
