-- ===== src/Files/Seal.antt =====
-- `file_finalize`: a file ends with exactly its frames, and what has been recorded stays.
use mathlib.Core.List.{append_assoc, append-nil}
use bvex_vdif_rfsoc.Base.{
  ℕ, zero, suc, ◌-◌, ◌*◌, ◌≤◌, ◌≡◌, refl, ap, ap₂, sym, ◌∙◌, List, [], ◌∷◌, ◌++◌,
}
use bvex_vdif_rfsoc.Base.{arith, length, length-append, length-take, take, replicate, true}
use bvex_vdif_rfsoc.Vdif.{vdif_frame_bytes}
use bvex_vdif_rfsoc.Disk.{Output, OFile, Fd, absent, live, stale, Store, Sealed, FinalCalls}
use bvex_vdif_rfsoc.Files.{file_finalize, resize, content, write_sidecar}

abbrev pub sealed_bytes : List Sealed → List ℕ
sealed_bytes [] = []
sealed_bytes (x ∷ xs) = x.bytes ++ sealed_bytes xs

pub sealed_bytes-append :
    (xs ys : List Sealed) → sealed_bytes (xs ++ ys) ≡ sealed_bytes xs ++ sealed_bytes ys
sealed_bytes-append [] ys = refl
sealed_bytes-append (x ∷ xs) ys =
    ap (λ t. x.bytes ++ t) (sealed_bytes-append xs ys)
    ∙ sym (append_assoc x.bytes (sealed_bytes xs) (sealed_bytes ys))

abbrev pub exact : OFile → ℕ
exact f = f.frames * vdif_frame_bytes

-- The frames in the file that is still open.
abbrev pub open_bytes : Fd → ℕ → List ℕ → List ℕ
open_bytes absent n out = []
open_bytes live n out = take n out
open_bytes stale n out = []

-- All the frames that have been recorded, in order, whichever file they stand in.
abbrev pub recorded : OFile → Store → List ℕ
recorded f st = sealed_bytes st.sealed ++ open_bytes f.fd (exact f) st.written

take-prefix : (n : ℕ) (xs ys : List ℕ) → n ≤ length xs → take n (xs ++ ys) ≡ take n xs
take-prefix zero xs ys h = refl
take-prefix (suc n) [] ys h = absurd (omega arith)
take-prefix (suc n) (x ∷ xs) ys h = ap (λ t. x ∷ t) (take-prefix n xs ys (omega arith))

resize-content :
    (n : ℕ) (st : Store) → n ≤ length st.written → resize n (content st) ≡ take n st.written
resize-content n st h =
    ap₂ (λ a k. a ++ replicate k 0)
      (take-prefix n st.written (replicate (st.reserved - length st.written) 0) h) nothing_short
    ∙ append-nil (take n st.written)
  where
    nothing_short : n - length (content st) ≡ 0
    nothing_short =
        omega (arith, length-append st.written (replicate (st.reserved - length st.written) 0))

module _ (c : Output) (calls : FinalCalls) (gaps : ℕ) (f : OFile) (st : Store) where
  -- The file, trimmed.
  abbrev pub trimmed : Sealed
  trimmed = record { name = f.path; revealed = calls.renamed; bytes = take (exact f) st.written }

  finalized_list :
      f.fd ≡ live
      → calls.truncated ≡ true
      → exact f ≤ length st.written
      → (file_finalize c calls gaps f st).1.sealed ≡ st.sealed ++ (trimmed ∷ [])
  unfolding file_finalize
  finalized_list opened trims holds =
      rw (opened, trims)
        (ap
          (λ (b : List ℕ).
            st.sealed ++ (record { name = f.path; revealed = calls.renamed; bytes = b } ∷ []))
          (resize-content (exact f) st holds))

  finalized_fd : f.fd ≡ live → (file_finalize c calls gaps f st).0.fd ≡ absent
  unfolding file_finalize
  finalized_fd opened = rw opened

  finalized_recording :
      f.fd ≡ live
      → (file_finalize c calls gaps f st).1.sealed ≡ st.sealed ++ (trimmed ∷ [])
      → recorded (file_finalize c calls gaps f st).0 (file_finalize c calls gaps f st).1
        ≡ recorded f st
  finalized_recording opened sealed =
      rw (finalized_fd opened, sealed, opened)
        (append-nil (sealed_bytes (st.sealed ++ (trimmed ∷ [])))
          ∙ sealed_bytes-append st.sealed (trimmed ∷ [])
          ∙ ap (λ t. sealed_bytes st.sealed ++ t) (append-nil (take (exact f) st.written)))

  -- What `file_finalize` leaves of an open file that it can trim.
  pub record Finalized : Type 0 where
    pub after : OFile
    pub store : Store
    pub returns : file_finalize c calls gaps f st ≡ (after, store)
    pub closed : after.fd ≡ absent
    pub same_disk : after.disk ≡ f.disk
    pub same_frames : after.frames ≡ f.frames
    pub sealed : store.sealed ≡ st.sealed ++ (trimmed ∷ [])
    pub size : length trimmed.bytes ≡ exact f
    pub told :
        calls.sidecar_opened ≡ true → store.sidecars ≡ st.sidecars ++ (write_sidecar f gaps ∷ [])
    pub recording : recorded after store ≡ recorded f st

  -- An open file that holds its frames, and that `ftruncate` can trim, is closed with exactly the
  -- bytes of its frames, next in the list of finished files. Its sidecar, if it can be opened, is
  -- the next one, and the recorded bytes are those of before.
  pub file_finalize-Finalized :
      f.fd ≡ live → calls.truncated ≡ true → exact f ≤ length st.written → Finalized
  unfolding file_finalize
  file_finalize-Finalized opened trims holds = record {
    after = (file_finalize c calls gaps f st).0;
    store = (file_finalize c calls gaps f st).1;
    returns = refl;
    closed = finalized_fd opened;
    same_disk = rw opened;
    same_frames = rw opened;
    sealed = finalized_list opened trims holds;
    size = length-take (exact f) st.written holds;
    told = λ e. rw (opened, e);
    recording = finalized_recording opened (finalized_list opened trims holds);
  }

-- Without an open file nothing happens.
pub file_finalize-absent :
    (c : Output) (calls : FinalCalls) (gaps : ℕ) (f : OFile) (st : Store)
    → f.fd ≡ absent
    → file_finalize c calls gaps f st ≡ (f, st)
unfolding file_finalize
file_finalize-absent c calls gaps f st e = rw e
