-- ===== src/Xdp/Gather.antt =====
-- A packet in fragments: what stands in the scratch buffer when its last descriptor is processed.
use mathlib.Core.Path.{subst}
use mathlib.Core.List.{append_assoc, append-nil}
use bvex_vdif_rfsoc.Base.{ℕ, zero, suc, ◌+◌, ◌≤◌, ◌≡◌, refl, ap, sym, ◌∙◌, List, [], ◌∷◌, ◌++◌}
use bvex_vdif_rfsoc.Base.{Bool, true, false, arith, length, take, poke, block, leb, add32}
use bvex_vdif_rfsoc.Base.{take-nil, length-poke, length-block}
use bvex_vdif_rfsoc.Capture.{Config, Wait}
use bvex_vdif_rfsoc.Xdp.{
  XdpDesc, Rx, RxEnd, going, stuck, crashed, scratch_size, chunk_base, add_fragment, end_packet,
  receive,
}

abbrev pub gather : List ℕ → List XdpDesc → Rx → Rx
gather umem [] rx = rx
gather umem (d ∷ ds) rx = gather umem ds (add_fragment umem d rx)

-- The packet on the wire, its length, and the chunks that its fragments came in.
abbrev pub packet : List ℕ → List XdpDesc → List ℕ
packet umem [] = []
packet umem (d ∷ ds) = block umem d.addr d.len ++ packet umem ds

abbrev pub packet_len : List XdpDesc → ℕ
packet_len [] = 0
packet_len (d ∷ ds) = d.len + packet_len ds

abbrev pub chunks : List XdpDesc → List ℕ
chunks [] = []
chunks (d ∷ ds) = chunk_base d.addr ∷ chunks ds

-- Every fragment lies in the UMEM.
abbrev pub AllInside : List ℕ → List XdpDesc → Type 0
AllInside umem [] = Unit {0}
AllInside umem (d ∷ ds) = (d.addr + d.len ≤ length umem) × AllInside umem ds

take-poke :
    (m : List ℕ) (o : ℕ) (bs : List ℕ)
    → o + length bs ≤ length m
    → take (o + length bs) (poke m o bs) ≡ take o m ++ bs
take-poke [] o [] h = take-nil (o + 0) ∙ sym (append-nil (take o []) ∙ take-nil o)
take-poke [] o (b ∷ bs) h = absurd (omega arith)
take-poke (x ∷ xs) zero [] h = refl
take-poke (x ∷ xs) zero (b ∷ bs) h =
    ap (λ n. take n (b ∷ poke xs zero bs)) {x = 0 + suc (length bs)} {y = suc (0 + length bs)}
      (omega arith)
    ∙ ap (λ t. b ∷ t) (take-poke xs zero bs (omega arith))
take-poke (x ∷ xs) (suc o) bs h =
    ap (λ n. take n (x ∷ poke xs o bs)) {x = suc o + length bs} {y = suc (o + length bs)}
      (omega arith)
    ∙ ap (λ t. x ∷ t) (take-poke xs o bs (omega arith))

-- What the buffer and the rest of the state are after the fragments `ds`.
pub record Gathered (umem : List ℕ) (ds : List XdpDesc) (rx rx' : Rx) : Type 0 where
  pub bytes : take rx'.scl rx'.scratch ≡ take rx.scl rx.scratch ++ packet umem ds
  pub scl : rx'.scl ≡ rx.scl + packet_len ds
  pub size : length rx'.scratch ≡ length rx.scratch
  pub overflow : rx'.overflow ≡ rx.overflow
  pub stop_now : rx'.stop_now ≡ rx.stop_now
  pub st : rx'.st ≡ rx.st
  pub shared : rx'.shared ≡ rx.shared
  pub fill : rx'.fill ≡ rx.fill ++ chunks ds

one :
    (umem : List ℕ) (d : XdpDesc) (rx : Rx)
    → d.addr + d.len ≤ length umem
    → length rx.scratch ≡ scratch_size
    → rx.scl + d.len ≤ scratch_size
    → add_fragment umem d rx ≡ record rx {
      scratch = poke rx.scratch rx.scl (block umem d.addr d.len);
      scl = rx.scl + d.len;
      fill = rx.fill ++ (chunk_base d.addr ∷ []);
    }
unfolding add_fragment
one umem d rx inside size fits =
    let word : add32 rx.scl d.len ≡ rx.scl + d.len = omega arith in
    let short : leb (rx.scl + d.len) scratch_size ≡ true = ground arith in rw (word, short)

one-Gathered :
    (umem : List ℕ) (d : XdpDesc) (rx : Rx)
    → d.addr + d.len ≤ length umem
    → length rx.scratch ≡ scratch_size
    → rx.scl + d.len ≤ scratch_size
    → Gathered umem (d ∷ []) rx (add_fragment umem d rx)
one-Gathered umem d rx inside size fits =
    let frag = block umem d.addr d.len in
    let same : length frag ≡ d.len = length-block umem d.addr d.len inside in
    subst (Gathered umem (d ∷ []) rx) (sym (one umem d rx inside size fits)) (record {
      bytes =
          ap (λ n. take (rx.scl + n) (poke rx.scratch rx.scl frag)) (sym same)
          ∙ take-poke rx.scratch rx.scl frag (omega (arith, same, size, fits))
          ∙ ap (λ t. take rx.scl rx.scratch ++ t) (sym (append-nil frag));
      scl = omega arith;
      size = length-poke rx.scratch rx.scl frag;
      overflow = refl;
      stop_now = refl;
      st = refl;
      shared = refl;
      fill = refl;
    })

pub gather-Gathered :
    (umem : List ℕ) (ds : List XdpDesc) (rx : Rx)
    → AllInside umem ds
    → length rx.scratch ≡ scratch_size
    → rx.scl + packet_len ds ≤ scratch_size
    → Gathered umem ds rx (gather umem ds rx)
gather-Gathered umem [] rx inside size fits = record {
  bytes = sym (append-nil (take rx.scl rx.scratch));
  scl = omega arith;
  size = refl;
  overflow = refl;
  stop_now = refl;
  st = refl;
  shared = refl;
  fill = sym (append-nil rx.fill);
}
gather-Gathered umem (d ∷ ds) rx inside size fits =
    let a = one-Gathered umem d rx inside.0 size (omega (arith, fits)) in
    let b =
      gather-Gathered umem ds (add_fragment umem d rx) inside.1 (a.size ∙ size)
        (omega (arith, fits, a.scl)) in
    record {
      bytes =
          b.bytes
          ∙ ap (λ t. t ++ packet umem ds) a.bytes
          ∙ append_assoc (take rx.scl rx.scratch) (block umem d.addr d.len ++ []) (packet umem ds)
          ∙ ap (λ t. take rx.scl rx.scratch ++ (t ++ packet umem ds))
              (append-nil (block umem d.addr d.len));
      scl = omega (arith, a.scl, b.scl);
      size = b.size ∙ a.size;
      overflow = b.overflow ∙ a.overflow;
      stop_now = b.stop_now ∙ a.stop_now;
      st = b.st ∙ a.st;
      shared = b.shared ∙ a.shared;
      fill =
          b.fill
          ∙ ap (λ t. t ++ chunks ds) a.fill
          ∙ append_assoc rx.fill (chunk_base d.addr ∷ []) (chunks ds);
    }

-- The descriptors of a packet: all flagged but the last.
abbrev pub Flagged : List XdpDesc → XdpDesc → Type 0
Flagged [] z = z.more ≡ false
Flagged (d ∷ ds) z = (d.more ≡ true) × Flagged ds z

abbrev pub with_waits :
    List XdpDesc → XdpDesc × List Wait × List Wait → List (XdpDesc × List Wait × List Wait)
with_waits [] z = z ∷ []
with_waits (d ∷ ds) z = (d, [], []) ∷ with_waits ds z

going_eta : (r : RxEnd) → elim r [ going rx ↦ going rx | stuck ↦ stuck | crashed ↦ crashed ] ≡ r
going_eta (going rx) = refl
going_eta stuck = refl
going_eta crashed = refl

if_more : (b : Bool) (x y : RxEnd) → b ≡ true → elim b [ true ↦ x | false ↦ y ] ≡ x
if_more b x y e = rw e

if_last : (b : Bool) (x y : RxEnd) → b ≡ false → elim b [ true ↦ x | false ↦ y ] ≡ y
if_last b x y e = rw e

receive-gather :
    (cfg : Config) (umem : List ℕ) (ds : List XdpDesc) (z : XdpDesc) (ws_cut ws_full : List Wait)
    (rx : Rx)
    → Flagged ds z
    → receive cfg umem (with_waits ds (z, ws_cut, ws_full)) rx
      ≡ end_packet cfg ws_cut ws_full (gather umem (ds ++ (z ∷ [])) rx)
unfolding receive
receive-gather cfg umem [] z ws_cut ws_full rx fl =
    let finished = end_packet cfg ws_cut ws_full (add_fragment umem z rx) in
    if_last z.more (going (add_fragment umem z rx))
      (elim finished [ going rx2 ↦ going rx2 | stuck ↦ stuck | crashed ↦ crashed ]) fl
    ∙ going_eta finished
receive-gather cfg umem (d ∷ ds) z ws_cut ws_full rx fl =
    let rest = with_waits ds (z, ws_cut, ws_full) in
    if_more d.more (receive cfg umem rest (add_fragment umem d rx))
      (elim (end_packet cfg [] [] (add_fragment umem d rx)) [
        | going rx2 ↦ receive cfg umem rest rx2
        | stuck ↦ stuck
        | crashed ↦ crashed
      ])
      fl.0
    ∙ receive-gather cfg umem ds z ws_cut ws_full (add_fragment umem d rx) fl.1

-- A packet on the wire that arrives in fragments: the loop ends it on a state `whole` whose buffer
-- begins with its bytes.
pub record Reassembled (cfg : Config) (umem : List ℕ) (ds : List XdpDesc) (z : XdpDesc)
    (ws_cut ws_full : List Wait) (rx : Rx) : Type 0 where
  pub whole : Rx
  pub ends :
      receive cfg umem (with_waits ds (z, ws_cut, ws_full)) rx ≡ end_packet cfg ws_cut ws_full whole
  pub gathered : Gathered umem (ds ++ (z ∷ [])) rx whole

-- Descriptors that are all flagged as continued but the last, whose fragments lie in the UMEM and
-- together fit the scratch buffer behind what it holds: the loop ends one packet, on a state whose
-- buffer holds the fragments' bytes in order behind the earlier ones, with nothing else changed but
-- the fill ring, which has got the chunk of every descriptor in order.
pub receive-Reassembled :
    (cfg : Config) (umem : List ℕ) (ds : List XdpDesc) (z : XdpDesc) (ws_cut ws_full : List Wait)
    (rx : Rx)
    → Flagged ds z
    → AllInside umem (ds ++ (z ∷ []))
    → length rx.scratch ≡ scratch_size
    → rx.scl + packet_len (ds ++ (z ∷ [])) ≤ scratch_size
    → Reassembled cfg umem ds z ws_cut ws_full rx
receive-Reassembled cfg umem ds z ws_cut ws_full rx fl inside size fits = record {
  whole = gather umem (ds ++ (z ∷ [])) rx;
  ends = receive-gather cfg umem ds z ws_cut ws_full rx fl;
  gathered = gather-Gathered umem (ds ++ (z ∷ [])) rx inside size fits;
}
