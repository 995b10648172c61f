-- ===== src/Args/Accepts.antt =====
-- What command lines the recorder takes, and what it has checked when it goes on.
use mathlib.Core.Path.{subst}
use bvex_vdif_rfsoc.Base.{
  ℕ, ◌%◌, ◌≤◌, ◌<◌, ◌≡◌, refl, sym, ap, ◌∙◌, ◌↔◌, List, [], ◌∷◌, take, length, Option, Bool, zero,
  suc, some, none, arith,
}
use bvex_vdif_rfsoc.Text.{Bytes, split, tokens}
use bvex_vdif_rfsoc.Text.Tokens.{AllTokens, tokens-AllTokens, joined, tokens-joined}
use bvex_vdif_rfsoc.Disk.{page}
use bvex_vdif_rfsoc.Capture.{slab_bytes}
use bvex_vdif_rfsoc.Args.Loop.{parse_loop, find_word_sound}
use bvex_vdif_rfsoc.Args.Grammar.{AreTold, Says, parse_loop-written, parse_loop_sound}
use bvex_vdif_rfsoc.Args.{
  Options, defaults, Key, Flag, iface_key, dport_key, disks_key, secs_per_file_key, status_key,
  min_free_key, frames_per_slab_key, nslabs_key, block_mb_key, nblocks_key, cap_core_key,
  wr_core_key, run_secs_key, rcvbuf_key, busy_poll_key, rx_key, xdp_queue_key, xdp_copy, xdp_zc,
  xdp_skb, xdp_no_busy, xdp_busy_flag, buffered, no_align, key_text, flag_text, keys, flags, key_of,
  flag_of, set_key, set_flag, parse_args, is_comma, max_disks, parse_disks, config, checked,
  check_slab, check_disks, check_options, start,
}

key_of-key_text : (k : Key) → key_of (key_text k) ≡ some k
unfolding key_of
key_of-key_text iface_key = refl
key_of-key_text dport_key = refl
key_of-key_text disks_key = refl
key_of-key_text secs_per_file_key = refl
key_of-key_text status_key = refl
key_of-key_text min_free_key = refl
key_of-key_text frames_per_slab_key = refl
key_of-key_text nslabs_key = refl
key_of-key_text block_mb_key = refl
key_of-key_text nblocks_key = refl
key_of-key_text cap_core_key = refl
key_of-key_text wr_core_key = refl
key_of-key_text run_secs_key = refl
key_of-key_text rcvbuf_key = refl
key_of-key_text busy_poll_key = refl
key_of-key_text rx_key = refl
key_of-key_text xdp_queue_key = refl

flag_of-flag_text : (f : Flag) → flag_of (flag_text f) ≡ some f
unfolding flag_of
flag_of-flag_text xdp_copy = refl
flag_of-flag_text xdp_zc = refl
flag_of-flag_text xdp_skb = refl
flag_of-flag_text xdp_no_busy = refl
flag_of-flag_text xdp_busy_flag = refl
flag_of-flag_text buffered = refl
flag_of-flag_text no_align = refl

key_of-flag_text : (f : Flag) → key_of (flag_text f) ≡ none
unfolding key_of
key_of-flag_text xdp_copy = refl
key_of-flag_text xdp_zc = refl
key_of-flag_text xdp_skb = refl
key_of-flag_text xdp_no_busy = refl
key_of-flag_text xdp_busy_flag = refl
key_of-flag_text buffered = refl
key_of-flag_text no_align = refl

pub told : AreTold key_text flag_text key_of flag_of
unfolding key_of flag_of
told = record {
  key_sound = find_word_sound key_text keys;
  key_complete = key_of-key_text;
  flag_sound = find_word_sound flag_text flags;
  flag_complete = flag_of-flag_text;
  apart = key_of-flag_text;
}

-- The argument loop takes exactly the command lines that are settings one after the other, an option
-- with its value or one without, and the result is the settings applied to the defaults from left to
-- right.
pub parse_args_iff :
    (argv : List Bytes) (o : Options)
    → (parse_args argv ≡ some o) ↔ Says key_text flag_text set_key set_flag argv defaults o
unfolding parse_args
parse_args_iff argv o = (
  parse_loop_sound key_text flag_text set_key set_flag told argv defaults o,
  λ s.
      ap (λ w. parse_loop key_of flag_of set_key set_flag w defaults) s.1
      ∙ parse_loop-written key_text flag_text set_key set_flag told s.0 defaults
      ∙ s.2,
)

-- The words between commas come out as the disks, up to eight of them.
pub parse_disks-joined :
    (disks : List Bytes)
    → AllTokens is_comma disks
    → parse_disks (joined b',' disks []) ≡ take max_disks disks
unfolding parse_disks tokens split
parse_disks-joined disks a =
    ap (take max_disks) (tokens-joined is_comma b',' disks [] refl a tt refl)

take-AllTokens :
    (is_delim : ℕ → Bool) (n : ℕ) (ws : List Bytes)
    → AllTokens is_delim ws
    → AllTokens is_delim (take n ws) × (length (take n ws) ≤ n)
take-AllTokens is_delim zero ws a = (tt, omega arith)
take-AllTokens is_delim (suc n) [] a = (tt, omega arith)
take-AllTokens is_delim (suc n) (w ∷ ws) a =
    let r = take-AllTokens is_delim n ws a.1 in ((a.0, r.0), omega (arith, r.1))

-- What holds of the settings behind the checks.
pub record IsChecked (o : Options) (disks : List Bytes) (bytes : ℕ) : Type 0 where
  pub from_option : disks ≡ parse_disks o.disks
  pub some_disk : 0 < length disks
  pub few_disks : length disks ≤ max_disks
  pub named : AllTokens is_comma disks
  pub whole_batches : o.frames_per_slab % 128 ≡ 0
  pub slab : bytes ≡ slab_bytes (config o)
  pub whole_pages : bytes % page ≡ 0

check_slab-checked :
    (o o' : Options) (disks disks' : List Bytes) {bytes : ℕ}
    → check_slab o disks ≡ checked o' disks' bytes
    → (o ≡ o')
      × (disks ≡ disks')
      × (bytes ≡ slab_bytes (config o))
      × (o.frames_per_slab % 128 ≡ 0)
      × (bytes % page ≡ 0)
check_slab-checked o o' disks disks' {bytes} e = ground arith

check_disks-checked :
    (o o' : Options) (disks disks' : List Bytes) {bytes : ℕ}
    → check_disks o disks ≡ checked o' disks' bytes
    → (0 < length disks) × (check_slab o disks ≡ checked o' disks' bytes)
check_disks-checked o o' [] disks' e = cc
check_disks-checked o o' (d ∷ ds) disks' e = (omega arith, e)

check_options-checked :
    (r : Option Options) (o : Options) (disks : List Bytes) {bytes : ℕ}
    → check_options r ≡ checked o disks bytes
    → (r ≡ some o) × IsChecked o disks bytes
unfolding parse_disks
check_options-checked none o disks e = cc
check_options-checked (some o1) o disks {bytes} e =
    let given = parse_disks o1.disks in
    let d = check_disks-checked o1 o given disks e in
    let s = check_slab-checked o1 o given disks d.1 in
    let t =
      take-AllTokens is_comma max_disks (tokens is_comma o1.disks)
        (tokens-AllTokens is_comma o1.disks) in
    subst (λ (x : Options). (some o1 ≡ some x) × IsChecked x disks bytes) s.0
      (
        refl,
        record {
          from_option = sym s.1;
          some_disk = subst (λ (x : List Bytes). 0 < length x) s.1 d.0;
          few_disks = subst (λ (x : List Bytes). length x ≤ max_disks) s.1 t.1;
          named = subst (λ (x : List Bytes). AllTokens is_comma x) s.1 t.0;
          whole_batches = s.3;
          slab = s.2;
          whole_pages = s.4;
        },
      )

-- A start that passes the checks comes from words that the argument loop takes; there are between one
-- and eight disks, none of them empty or with a comma, and the slab size is that of the settings, a
-- multiple of 128 frames and of the page, also where the product wraps around.
pub start-IsChecked :
    (argv : List Bytes) {o : Options} {disks : List Bytes} {bytes : ℕ}
    → start argv ≡ checked o disks bytes
    → (parse_args argv ≡ some o) × IsChecked o disks bytes
unfolding start
start-IsChecked argv {o} {disks} e = check_options-checked (parse_args argv) o disks e
