-- ===== src/Args/Tests.antt =====
-- Command lines of the recorder.
use bvex_vdif_rfsoc.Base.{◌≡◌, ◌↔◌, ◌-◌, ◌^◌, refl, List, [], ◌∷◌, some, none, true, arith}
use bvex_vdif_rfsoc.Text.{Bytes, codes, tokens, split, atoi, atol, skip_space, signed, digits}
use bvex_vdif_rfsoc.Text.Tokens.{joined}
use bvex_vdif_rfsoc.Args.{
  xdp, Options, defaults, key_text, flag_text, set_key, set_flag, parse_args, parse_disks, checked,
  bad_slab, no_disks, bad_usage, start,
}
use bvex_vdif_rfsoc.Args.Grammar.{Says}
use bvex_vdif_rfsoc.Args.Accepts.{parse_args_iff, parse_disks-joined, IsChecked, start-IsChecked}
use bvex_vdif_rfsoc.Args.Print.{command_line, IsPlain, parse_args-command_line}

abbrev words : List Bytes
words =
    codes "--rx"
    ∷ codes "xdp"
    ∷ codes "--xdp-zc"
    ∷ codes "--nslabs"
    ∷ codes "7"
    ∷ codes "--nslabs"
    ∷ codes " -1x"
    ∷ codes "--disks"
    ∷ codes ",/a,,/b"
    ∷ []

abbrev options : Options
options = record defaults {
  rx_mode = xdp;
  xdp_zerocopy = true;
  nslabs = 2 ^ 32 - 1;
  disks = codes ",/a,,/b";
}

parse_args_iff_example :
    (parse_args words ≡ some options)
    ↔ Says key_text flag_text set_key set_flag words defaults options
parse_args_iff_example = parse_args_iff words options

words_parse : parse_args words ≡ some options
unfolding parse_args atoi atol skip_space signed digits
words_parse = refl

no_value : parse_args (codes "--buffered" ∷ codes "--dport" ∷ []) ≡ none
unfolding parse_args
no_value = refl

bad_mode : start (codes "--rx" ∷ codes "tcp" ∷ []) ≡ bad_usage
unfolding start parse_args
bad_mode = refl

odd_slab : start (codes "--frames-per-slab" ∷ codes "1000" ∷ []) ≡ bad_slab
unfolding start parse_args parse_disks tokens split atoi atol skip_space signed digits
odd_slab = refl

empty_disks : start (codes "--disks" ∷ codes ",," ∷ []) ≡ no_disks
unfolding start parse_args parse_disks tokens split
empty_disks = refl

started : start words ≡ checked options (codes "/a" ∷ codes "/b" ∷ []) 8224768
unfolding start parse_args parse_disks tokens split atoi atol skip_space signed digits
started = refl

start-IsChecked_example :
    (parse_args words ≡ some options) × IsChecked options (codes "/a" ∷ codes "/b" ∷ []) 8224768
start-IsChecked_example = start-IsChecked words started

two_disks :
    parse_disks (joined b',' (codes "/a" ∷ codes "/b" ∷ []) []) ≡ codes "/a" ∷ codes "/b" ∷ []
two_disks =
    parse_disks-joined (codes "/a" ∷ codes "/b" ∷ []) ((refl, (refl, tt)), ((refl, (refl, tt)), tt))

options-IsPlain : IsPlain options
options-IsPlain = record {
  iface_fits = omega arith;
  status_fits = omega arith;
  dport_int = omega arith;
  secs_int = omega arith;
  frames_int = omega arith;
  nslabs_int = omega arith;
  block_int = omega arith;
  nblocks_int = omega arith;
  cap_int = omega arith;
  wr_int = omega arith;
  run_long = omega arith;
  rcvbuf_int = omega arith;
  poll_int = omega arith;
  queue_int = omega arith;
}

parse_args-command_line_example : parse_args (command_line options) ≡ some options
parse_args-command_line_example = parse_args-command_line options options-IsPlain
