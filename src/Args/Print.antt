-- ===== src/Args/Print.antt =====
-- Any settings can be written as a command line.
use bvex_vdif_rfsoc.Base.{
  ℕ, ◌^◌, ◌<◌, ◌≤◌, ◌≡◌, refl, ap, ◌∙◌, List, [], ◌∷◌, ◌++◌, take, length, Option, some, none,
  if◌then◌else◌, zero, suc, arith,
}
use bvex_vdif_rfsoc.Text.{Bytes, codes}
use bvex_vdif_rfsoc.Text.Numbers.{int_text, long_text, atoi-int_text, atol-long_text}
use bvex_vdif_rfsoc.Args.Loop.{and_then}
use bvex_vdif_rfsoc.Args.Grammar.{
  Setting, with_value, switch, written, apply_one, apply_all, parse_loop-written,
}
use bvex_vdif_rfsoc.Args.Accepts.{told}
use bvex_vdif_rfsoc.Args.{
  RxMode, udp, raw, ring, xdp, Options, defaults, Key, Flag, key_text, flag_text, set_key, set_flag,
  parse_args, mode_of, iface_key, dport_key, disks_key, secs_per_file_key, status_key, min_free_key,
  frames_per_slab_key, nslabs_key, block_mb_key, nblocks_key, cap_core_key, wr_core_key,
  run_secs_key, rcvbuf_key, busy_poll_key, rx_key, xdp_queue_key, xdp_copy, xdp_zc, xdp_skb,
  xdp_no_busy, xdp_busy_flag, buffered, no_align,
}

abbrev mode_text : RxMode → Bytes
mode_text udp = codes "udp"
mode_text raw = codes "raw"
mode_text ring = codes "ring"
mode_text xdp = codes "xdp"

mode_of-mode_text : (m : RxMode) → mode_of (mode_text m) ≡ some m
unfolding mode_of
mode_of-mode_text udp = refl
mode_of-mode_text raw = refl
mode_of-mode_text ring = refl
mode_of-mode_text xdp = refl

-- The options without a value that set the five switches of `o`.
abbrev switches : Options → List (Setting Key Flag)
switches o =
    (if o.use_odirect then [] else switch buffered ∷ [])
    ++ (if o.align_start then [] else switch no_align ∷ [])
    ++ (if o.xdp_drv then [] else switch xdp_skb ∷ [])
    ++ (if o.xdp_zerocopy then switch xdp_zc ∷ [] else switch xdp_copy ∷ [])
    ++ (if o.xdp_busy then switch xdp_busy_flag ∷ [] else switch xdp_no_busy ∷ [])

abbrev values : Options → List (Setting Key Flag)
values o =
    with_value iface_key o.iface
    ∷ with_value dport_key (int_text o.dport)
    ∷ with_value disks_key o.disks
    ∷ with_value secs_per_file_key (int_text o.secs_per_file)
    ∷ with_value status_key o.status_path
    ∷ with_value min_free_key o.min_free_gb
    ∷ with_value frames_per_slab_key (int_text o.frames_per_slab)
    ∷ with_value nslabs_key (int_text o.nslabs)
    ∷ with_value block_mb_key (int_text o.block_mb)
    ∷ with_value nblocks_key (int_text o.nblocks)
    ∷ with_value cap_core_key (int_text o.cap_core)
    ∷ with_value wr_core_key (int_text o.wr_core)
    ∷ with_value run_secs_key (long_text o.run_secs)
    ∷ with_value rcvbuf_key (int_text o.rcvbuf_mb)
    ∷ with_value busy_poll_key (int_text o.busy_poll_us)
    ∷ with_value rx_key (mode_text o.rx_mode)
    ∷ with_value xdp_queue_key (int_text o.xdp_queue)
    ∷ []

-- The words that say all settings of `o`.
pub command_line : Options → List Bytes
command_line o = written key_text flag_text set_key set_flag (switches o ++ values o)

-- Texts that fit their buffers, and numbers of their types.
pub record IsPlain (o : Options) : Type 0 where
  pub iface_fits : length o.iface ≤ 15
  pub status_fits : length o.status_path ≤ 1023
  pub dport_int : o.dport < 2 ^ 32
  pub secs_int : o.secs_per_file < 2 ^ 32
  pub frames_int : o.frames_per_slab < 2 ^ 32
  pub nslabs_int : o.nslabs < 2 ^ 32
  pub block_int : o.block_mb < 2 ^ 32
  pub nblocks_int : o.nblocks < 2 ^ 32
  pub cap_int : o.cap_core < 2 ^ 32
  pub wr_int : o.wr_core < 2 ^ 32
  pub run_long : o.run_secs < 2 ^ 64
  pub rcvbuf_int : o.rcvbuf_mb < 2 ^ 32
  pub poll_int : o.busy_poll_us < 2 ^ 32
  pub queue_int : o.xdp_queue < 2 ^ 32

take_all : (n : ℕ) (s : Bytes) → length s ≤ n → take n s ≡ s
take_all zero [] h = refl
take_all zero (c ∷ s) h = absurd (omega arith)
take_all (suc n) [] h = refl
take_all (suc n) (c ∷ s) h = ap (λ t. c ∷ t) (take_all n s (omega arith))

and_then_assoc :
    (x : Option Options) (f g h : Options → Option Options)
    → ((o : Options) → h o ≡ and_then (f o) g)
    → and_then x h ≡ and_then (and_then x f) g
and_then_assoc none f g h e = refl
and_then_assoc (some o) f g h e = e o

apply_all-append :
    (ss us : List (Setting Key Flag)) (o : Options)
    → apply_all key_text flag_text set_key set_flag (ss ++ us) o
      ≡ and_then
          (apply_all key_text flag_text set_key set_flag ss o)
          (apply_all key_text flag_text set_key set_flag us)
apply_all-append [] us o = refl
apply_all-append (s ∷ ss) us o =
    and_then_assoc (apply_one key_text flag_text set_key set_flag s o)
      (apply_all key_text flag_text set_key set_flag ss)
      (apply_all key_text flag_text set_key set_flag us)
      (apply_all key_text flag_text set_key set_flag (ss ++ us)) (apply_all-append ss us)

-- The switches set, the rest as it was.
abbrev switched : Options → Options
switched o = record defaults {
  use_odirect = o.use_odirect;
  align_start = o.align_start;
  xdp_drv = o.xdp_drv;
  xdp_zerocopy = o.xdp_zerocopy;
  xdp_busy = o.xdp_busy;
}

apply_all-switches :
    (o : Options)
    → apply_all key_text flag_text set_key set_flag (switches o) defaults ≡ some (switched o)
unfolding set_flag
apply_all-switches o = ground arith

apply_all-values :
    (o : Options)
    → IsPlain o
    → apply_all key_text flag_text set_key set_flag (values o) (switched o) ≡ some o
unfolding set_key
apply_all-values o p = cc (
  take_all 15 o.iface p.iface_fits,
  take_all 1023 o.status_path p.status_fits,
  atoi-int_text o.dport p.dport_int,
  atoi-int_text o.secs_per_file p.secs_int,
  atoi-int_text o.frames_per_slab p.frames_int,
  atoi-int_text o.nslabs p.nslabs_int,
  atoi-int_text o.block_mb p.block_int,
  atoi-int_text o.nblocks p.nblocks_int,
  atoi-int_text o.cap_core p.cap_int,
  atoi-int_text o.wr_core p.wr_int,
  atol-long_text o.run_secs p.run_long,
  atoi-int_text o.rcvbuf_mb p.rcvbuf_int,
  atoi-int_text o.busy_poll_us p.poll_int,
  atoi-int_text o.xdp_queue p.queue_int,
  mode_of-mode_text o.rx_mode,
)

-- All settings whose texts fit their buffers, and whose numbers fit their types, can be written as a
-- command line that the argument loop reads back.
pub parse_args-command_line : (o : Options) → IsPlain o → parse_args (command_line o) ≡ some o
unfolding parse_args command_line
parse_args-command_line o p =
    parse_loop-written key_text flag_text set_key set_flag told (switches o ++ values o) defaults
    ∙ apply_all-append (switches o) (values o) defaults
    ∙ ap (λ x. and_then x (apply_all key_text flag_text set_key set_flag (values o)))
        (apply_all-switches o)
    ∙ apply_all-values o p
