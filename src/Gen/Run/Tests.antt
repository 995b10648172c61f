-- ===== src/Gen/Run/Tests.antt =====
-- A run of two frames, at two frames a second.
use bvex_vdif_rfsoc.Base.{◌+◌, ◌<◌, ◌≤◌, ◌≡◌, refl, List, [], ◌∷◌, replicate, arith}
use bvex_vdif_rfsoc.Fixtures.{stamp}
use bvex_vdif_rfsoc.Gen.{SendResult, sent}
use bvex_vdif_rfsoc.Gen.Run.{batch, batch_size, per_ms, Sending, done, source}
use bvex_vdif_rfsoc.Gen.Run.Keeps.{Sent}
use bvex_vdif_rfsoc.Gen.Run.Counts.{first_numbers, source-Sent}
use bvex_vdif_rfsoc.Gen.Run.Ends.{Plenty, source-ends}

paces : (per_ms 128000 ≡ 128) × (per_ms 999 ≡ 1) × (batch_size 100 ≡ 64) × (batch_size 36 ≡ 36)
paces = (refl, refl, refl, refl)

abbrev answers : List (List (List SendResult))
answers = (replicate 64 (sent 1) ∷ []) ∷ (replicate 64 (sent 1) ∷ []) ∷ []

answers-Plenty : Plenty 2 answers
answers-Plenty = omega arith

two_frames : (s : Sending) × (source 2 1 3 stamp 100 answers ≡ done s)
two_frames = source-ends 2 1 3 stamp 100 answers (omega arith) answers-Plenty (omega arith)

source-ends_example : (s : Sending) × (source 2 1 3 stamp 100 answers ≡ done s)
source-ends_example = source-ends 2 1 3 stamp 100 answers (omega arith) answers-Plenty (omega arith)

source-Sent_example :
    Sent 2 (first_numbers 100) two_frames.0
    × (2 ≤ two_frames.0.sent)
    × (two_frames.0.sent < 2 + batch)
source-Sent_example = source-Sent 2 1 3 stamp 100 answers (omega arith) two_frames.1
