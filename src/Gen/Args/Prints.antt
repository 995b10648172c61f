-- ===== src/Gen/Args/Prints.antt =====
-- The source's settings can be written as a command line.
use bvex_vdif_rfsoc.Base.{◌^◌, ◌<◌, ◌≡◌, refl, ◌∙◌, List, [], ◌∷◌, some}
use bvex_vdif_rfsoc.Text.{Bytes}
use bvex_vdif_rfsoc.Text.Numbers.{int_text, long_text, atoi-int_text, atol-long_text}
use bvex_vdif_rfsoc.Args.Loop.{find_word_sound}
use bvex_vdif_rfsoc.Args.Grammar.{
  Setting, with_value, AreTold, written, apply_all, parse_loop-written,
}
use bvex_vdif_rfsoc.Gen.Args.{
  SourceOptions, source_defaults, SourceKey, NoFlag, dst_key, port_key, secs_key, rate_key,
  gap_period_key, thread_key, station_key, source_text, source_keys, source_key_of, no_flag,
  set_source, parse_source,
}

abbrev flag_text : NoFlag → Bytes
flag_text f = elim f [ ]

abbrev no_change : NoFlag → SourceOptions → SourceOptions
no_change f o = o

source_key_of-source_text : (k : SourceKey) → source_key_of (source_text k) ≡ some k
unfolding source_key_of
source_key_of-source_text dst_key = refl
source_key_of-source_text port_key = refl
source_key_of-source_text secs_key = refl
source_key_of-source_text rate_key = refl
source_key_of-source_text gap_period_key = refl
source_key_of-source_text thread_key = refl
source_key_of-source_text station_key = refl

told : AreTold source_text flag_text source_key_of no_flag
unfolding source_key_of
told = record {
  key_sound = find_word_sound source_text source_keys;
  key_complete = source_key_of-source_text;
  flag_sound = λ w f e. elim f [ ];
  flag_complete = λ f. elim f [ ];
  apart = λ f. elim f [ ];
}

abbrev settings : SourceOptions → List (Setting SourceKey NoFlag)
settings o =
    with_value dst_key o.dst
    ∷ with_value port_key (int_text o.port)
    ∷ with_value secs_key (int_text o.run_secs)
    ∷ with_value rate_key (long_text o.rate)
    ∷ with_value gap_period_key (long_text o.gap_period)
    ∷ with_value thread_key (int_text o.thread)
    ∷ with_value station_key (int_text o.station)
    ∷ []

pub source_line : SourceOptions → List Bytes
source_line o = written source_text flag_text set_source no_change (settings o)

-- Numbers of their types.
pub record AreInts (o : SourceOptions) : Type 0 where
  pub port_int : o.port < 2 ^ 32
  pub secs_int : o.run_secs < 2 ^ 32
  pub rate_long : o.rate < 2 ^ 64
  pub gap_long : o.gap_period < 2 ^ 64
  pub thread_int : o.thread < 2 ^ 32
  pub station_int : o.station < 2 ^ 32

apply_all-settings :
    (o : SourceOptions)
    → AreInts o
    → apply_all source_text flag_text set_source no_change (settings o) source_defaults ≡ some o
unfolding set_source
apply_all-settings o p = cc (
  atoi-int_text o.port p.port_int,
  atoi-int_text o.run_secs p.secs_int,
  atol-long_text o.rate p.rate_long,
  atol-long_text o.gap_period p.gap_long,
  atoi-int_text o.thread p.thread_int,
  atoi-int_text o.station p.station_int,
)

-- All settings of the source whose numbers fit their types can be written as a command line that its
-- argument loop reads back.
pub parse_source-source_line :
    (o : SourceOptions) → AreInts o → parse_source (source_line o) ≡ some o
unfolding parse_source source_line
parse_source-source_line o p =
    parse_loop-written source_text flag_text set_source no_change told (settings o) source_defaults
    ∙ apply_all-settings o p
