-- ===== src/Gen/Tests.antt =====
-- The generator on concrete numbers.
use bvex_vdif_rfsoc.Base.{ℕ, ◌+◌, ◌≤◌, ◌≡◌, refl, List, [], ◌∷◌, arith, length}
use bvex_vdif_rfsoc.Vdif.{parse_vhdr}
use bvex_vdif_rfsoc.Vdif.Stream.{Stream}
use bvex_vdif_rfsoc.Fixtures.{payload, length-payload, stamp, generating}
use bvex_vdif_rfsoc.Gen.{advance, fill_vdif_header, fill_batch, sent, try_again, all_sent, send_all}
use bvex_vdif_rfsoc.Gen.RoundTrip.{parse_vhdr-fill_vdif_header}
use bvex_vdif_rfsoc.Gen.Sequence.{number, fill_batch-Stream}

end_of_second :
    advance (record { sec = 5; frame = 127999; gapctr = 0; gaps_injected = 0 })
    ≡ record { sec = 6; frame = 0; gapctr = 0; gaps_injected = 0 }
unfolding advance
end_of_second = refl

parse_vhdr-fill_vdif_header_example :
    parse_vhdr (fill_vdif_header payload 0xffff_ffff 127999 52 3 0x4242) 0 ≡ record {
      sec = 0x3fff_ffff;
      frame = 127999;
      ref_epoch = 52;
      thread = 3;
      station = 0x4242;
      frame_len = 8032;
      bps_m1 = 1;
      data_type = 1;
    }
parse_vhdr-fill_vdif_header_example =
    parse_vhdr-fill_vdif_header payload 0xffff_ffff 127999 52 3 0x4242
      (omega (arith, length-payload))

fill_batch-Stream_example :
    let (out, g') = fill_batch 3 stamp generating (payload ∷ payload ∷ []) in
    Stream (number generating) out (number g')
    × (number g' + 6 ≡ number generating + 2 + g'.gaps_injected)
    × (length out ≡ 2)
    × (6 ≤ g'.gaps_injected)
fill_batch-Stream_example =
    fill_batch-Stream 3 stamp {g = generating} (payload ∷ payload ∷ [])
      (omega (arith, length-payload)) (omega arith) (omega arith)

abbrev three : List (List ℕ)
three = (1 ∷ []) ∷ (2 ∷ []) ∷ (3 ∷ []) ∷ []

partial_sends : send_all (sent 2 ∷ try_again ∷ sent 1 ∷ []) [] three ≡ all_sent three
unfolding send_all
partial_sends = refl
