-- ===== src/Spsc/Threads/Order.antt =====
-- However the steps of the two threads interleave, the ring stays valid, no entry is lost, doubled or
-- reordered, and a call that returns empty-handed saw a ring that was full, or empty.
use mathlib.Core.Path.{subst}
use mathlib.Core.List.{append_assoc, append-nil}
use bvex_vdif_rfsoc.Base.{ℕ, suc, ◌-◌, ◌≤◌, ◌≡◌, ◌≢◌, ap, sym, ◌∙◌}
use bvex_vdif_rfsoc.Base.{List, [], ◌∷◌, ◌++◌, arith, length, add32, bit_and}
use bvex_vdif_rfsoc.Spsc.{Spsc}
use bvex_vdif_rfsoc.Spsc.Refine.{length-contents, contents, slots_apart}
use bvex_vdif_rfsoc.Spsc.Threads.{
  between_pushes, has_room, between_pops, has_entry, Threads, Event, silent, full, empty, pushed,
  popped, Turn, by_producer, by_consumer, take_turn, run_turns, pushes, pops,
}
use bvex_vdif_rfsoc.Spsc.Threads.Knows.{ProducerKnows, ConsumerKnows, IsRunning, Effect, fill}
use bvex_vdif_rfsoc.Spsc.Threads.Produce.{produce-Produced}
use bvex_vdif_rfsoc.Spsc.Threads.Consume.{consume-Consumed}
use bvex_vdif_rfsoc.Spsc.{spsc_init}
use bvex_vdif_rfsoc.Spsc.Inv.{spsc_init-IsValid}
use bvex_vdif_rfsoc.Base.{◌^◌}

-- One step, of either thread.
pub record Stepped (s : Threads) (r : Threads × Event) : Type 0 where
  pub running : IsRunning r.0
  pub effect : Effect r.1 s.ring r.0.ring
  pub same_cap : r.0.ring.cap ≡ s.ring.cap

-- While both threads are inside their calls, one step of either keeps the ring valid and changes the
-- queue that it stands for only by the event: a push that returns puts its entry at the end, a pop
-- that returns takes the oldest, a push that finds the ring full did so when the queue had `cap`
-- entries and a pop that finds it empty when it had none; any other step leaves the queue as it was.
pub take_turn-Stepped : (t : Turn) (s : Threads) → IsRunning s → Stepped s (take_turn t s)
unfolding take_turn
take_turn-Stepped (by_producer v) s i =
    let k = produce-Produced v s.ring s.producer i.valid i.producer in
    record {
      running = record {
        valid = k.valid;
        producer = k.knows;
        consumer = k.others s.consumer i.consumer;
      };
      effect = k.effect;
      same_cap = k.same_cap;
    }
take_turn-Stepped by_consumer s i =
    let k = consume-Consumed s.ring s.consumer i.valid i.consumer in
    record {
      running = record {
        valid = k.valid;
        producer = k.others s.producer i.producer;
        consumer = k.knows;
      };
      effect = k.effect;
      same_cap = k.same_cap;
    }

-- A schedule from a state: what comes out is what went in, in order.
pub record Ordered (s : Threads) (r : Threads × List Event) : Type 0 where
  pub running : IsRunning r.0
  pub order : contents s.ring ++ pushes r.1 ≡ pops r.1 ++ contents r.0.ring
  pub bounded : length (contents r.0.ring) ≤ s.ring.cap

-- The order, from the effect of the first step and the order of the rest.
order-cons :
    (e : Event) (q q1 q2 : Spsc) (es : List Event)
    → Effect e q q1
    → contents q1 ++ pushes es ≡ pops es ++ contents q2
    → contents q ++ pushes (e ∷ es) ≡ pops (e ∷ es) ++ contents q2
order-cons silent q q1 q2 es k o = ap (λ l. l ++ pushes es) (sym k) ∙ o
order-cons full q q1 q2 es k o = ap (λ l. l ++ pushes es) (sym k.0) ∙ o
order-cons empty q q1 q2 es k o = ap (λ l. l ++ pushes es) (sym k.0) ∙ o
order-cons (pushed v) q q1 q2 es k o =
    sym (append_assoc (contents q) (v ∷ []) (pushes es)) ∙ ap (λ l. l ++ pushes es) (sym k) ∙ o
order-cons (popped v) q q1 q2 es k o = ap (λ l. l ++ pushes es) k ∙ ap (λ l. v ∷ l) o

-- Under every schedule of the two threads the entries that have been popped, followed by those that
-- the ring holds, are the entries that it held at first followed by those that have been pushed, in
-- order; the ring stays valid and holds at most `cap` entries.
pub run_turns-Ordered : (ts : List Turn) (s : Threads) → IsRunning s → Ordered s (run_turns ts s)
unfolding run_turns
run_turns-Ordered [] s i = record {
  running = i;
  order = append-nil (contents s.ring);
  bounded = omega (arith, length-contents s.ring, i.valid.fill);
}
run_turns-Ordered (t ∷ ts) s i =
    let k = take_turn-Stepped t s i in
    let r = run_turns-Ordered ts (take_turn t s).0 k.running in
    record {
      running = r.running;
      order =
          order-cons (take_turn t s).1 s.ring (take_turn t s).0.ring
            (run_turns ts (take_turn t s).0).0.ring (run_turns ts (take_turn t s).0).1 k.effect
            r.order;
      bounded = omega (arith, r.bounded, k.same_cap);
    }

slots_differ :
    (s : Threads) (v t h : ℕ)
    → IsRunning s
    → s.producer ≡ has_room v t
    → s.consumer ≡ has_entry h
    → bit_and t s.ring.mask ≢ bit_and h s.ring.mask
slots_differ s v t h i p c =
    let kp = subst (ProducerKnows s.ring) p i.producer in
    let kc = subst (ConsumerKnows s.ring) c i.consumer in
    let n = fill s.ring - 1 in
    let apart =
      slots_apart i.valid.log i.valid.small s.ring.head n
        (omega (arith, kp.1, kc.1, i.valid.cap_pow)) in
    let here : add32 s.ring.head (suc n) ≡ t =
      omega (arith, kp.0, kc.1, i.valid.head_word, i.valid.tail_word) in
    rw (i.valid.mask_ones, sym here, kc.0) apart

-- A state in which both threads are between calls.
abbrev pub resting : Spsc → Threads
resting q = record { ring = q; producer = between_pushes; consumer = between_pops }

-- What a schedule makes of an empty ring of `2 ^ k` entries.
abbrev pub reached : ℕ → List Turn → Threads
reached k ts = (run_turns ts (resting (spsc_init (2 ^ k)))).0

-- From an empty ring of `2 ^ k` entries on, no schedule of the two threads leads to a state in which
-- the slot that the producer is about to store into is the one that the consumer is about to read.
pub run_turns-slots_apart :
    (k : ℕ) (ts : List Turn) (v t h : ℕ)
    → k ≤ 31
    → (reached k ts).producer ≡ has_room v t
    → (reached k ts).consumer ≡ has_entry h
    → bit_and t (reached k ts).ring.mask ≢ bit_and h (reached k ts).ring.mask
run_turns-slots_apart k ts v t h small p c =
    slots_differ (reached k ts) v t h
      (run_turns-Ordered ts (resting (spsc_init (2 ^ k)))
        (record { valid = spsc_init-IsValid k small; producer = tt; consumer = tt })).running
      p c
