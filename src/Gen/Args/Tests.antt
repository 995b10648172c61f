-- ===== src/Gen/Args/Tests.antt =====
-- Command lines of the source.
use bvex_vdif_rfsoc.Base.{◌≡◌, refl, ◌∷◌, [], none, some, arith}
use bvex_vdif_rfsoc.Text.{codes, atol, skip_space, signed, digits}
use bvex_vdif_rfsoc.Gen.Args.{SourceOptions, source_defaults, parse_source}
use bvex_vdif_rfsoc.Gen.Args.Prints.{source_line, AreInts, parse_source-source_line}

abbrev gappy : SourceOptions
gappy = record source_defaults { rate = 1000; gap_period = 50 }

words :
    parse_source (codes "--rate" ∷ codes "1000" ∷ codes "--gap-period" ∷ codes "50" ∷ [])
    ≡ some gappy
unfolding parse_source atol skip_space signed digits
words = refl

unknown : parse_source (codes "--rates" ∷ codes "1000" ∷ []) ≡ none
unfolding parse_source
unknown = refl

gappy-AreInts : AreInts gappy
gappy-AreInts = record {
  port_int = omega arith;
  secs_int = omega arith;
  rate_long = omega arith;
  gap_long = omega arith;
  thread_int = omega arith;
  station_int = omega arith;
}

gappy_line : parse_source (source_line gappy) ≡ some gappy
gappy_line = parse_source-source_line gappy gappy-AreInts
