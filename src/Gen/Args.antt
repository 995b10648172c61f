-- ===== src/Gen/Args.antt =====
-- host/vdif_gen.c, the start of `main`: the argument loop.
mod Tests
pub mod Prints
use bvex_vdif_rfsoc.Base.{◌∷◌, ℕ, List, [], Option, none, some}
use bvex_vdif_rfsoc.Text.{Bytes, codes, same, atoi, atol}
use bvex_vdif_rfsoc.Args.Loop.{parse_loop, find_word}
use bvex_vdif_rfsoc.Gen.{fps}

-- The variables that options set; numbers are bit patterns of an `int` or a `long`.
pub record SourceOptions : Type 0 where
  pub dst : Bytes
  pub port : ℕ
  pub run_secs : ℕ
  pub thread : ℕ
  pub station : ℕ
  pub rate : ℕ
  pub gap_period : ℕ

abbrev pub source_defaults : SourceOptions
source_defaults = record {
  dst = codes "10.17.16.1";
  port = 4001;
  run_secs = 10;
  thread = 0;
  station = 0;
  rate = fps;
  gap_period = 0;
}

pub data SourceKey : Type 0 where
  dst_key port_key secs_key rate_key gap_period_key thread_key station_key : SourceKey

-- There are no options without a value.
pub data NoFlag : Type 0 where

abbrev pub source_text : SourceKey → Bytes
source_text dst_key = codes "--dst"
source_text port_key = codes "--port"
source_text secs_key = codes "--secs"
source_text rate_key = codes "--rate"
source_text gap_period_key = codes "--gap-period"
source_text thread_key = codes "--thread"
source_text station_key = codes "--station"

abbrev pub source_keys : List SourceKey
source_keys =
    dst_key ∷ port_key ∷ secs_key ∷ rate_key ∷ gap_period_key ∷ thread_key ∷ station_key ∷ []

unfoldable pub source_key_of : Bytes → Option SourceKey
unfolding find_word
source_key_of w = find_word source_text source_keys w

abbrev pub no_flag : Bytes → Option NoFlag
no_flag w = none

unfoldable pub set_source : SourceKey → Bytes → SourceOptions → Option SourceOptions
set_source dst_key v o = some (record o { dst = v })
set_source port_key v o = some (record o { port = atoi v })
set_source secs_key v o = some (record o { run_secs = atoi v })
set_source rate_key v o = some (record o { rate = atol v })
set_source gap_period_key v o = some (record o { gap_period = atol v })
set_source thread_key v o = some (record o { thread = atoi v })
set_source station_key v o = some (record o { station = atoi v })

-- The argument loop; `none` is the exit with the usage text and status 2.
unfoldable pub parse_source : List Bytes → Option SourceOptions
unfolding parse_loop source_key_of set_source
parse_source argv =
    parse_loop source_key_of no_flag set_source (λ (f : NoFlag) o. o) argv source_defaults
