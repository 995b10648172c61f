-- ===== src/Spsc/Threads/Knows.antt =====
-- What each thread knows of the ring between its steps, and what a step of either keeps.
use bvex_vdif_rfsoc.Base.{ℕ, zero, suc, ◌-◌, ◌^◌, ◌≤◌, ◌<◌, ◌≡◌, refl, ap, ap₂, ◌∙◌}
use bvex_vdif_rfsoc.Base.{List, [], ◌∷◌, ◌++◌, arith, length, get_or, set, add32, sub32, bit_and}
use bvex_vdif_rfsoc.Base.{get_or-set_ne}
use bvex_vdif_rfsoc.Spsc.{Spsc}
use bvex_vdif_rfsoc.Spsc.Inv.{IsValid}
use bvex_vdif_rfsoc.Spsc.Refine.{window, contents, window_of_pos, slots_apart}
use bvex_vdif_rfsoc.Spsc.Threads.{
  Producer, between_pushes, has_tail, has_room, has_written, Consumer, between_pops, has_head,
  has_entry, has_read, Threads, Event, silent, full, empty, pushed, popped,
}

-- A store just past a window leaves the window alone.
pub window-set_past :
    (k : ℕ) (small : k ≤ 31) (buf : List ℕ) (x n h i : ℕ)
    → n < 2 ^ k
    → h < 2 ^ 32
    → i ≡ bit_and (add32 h n) (2 ^ k - 1)
    → window (set buf i x) (2 ^ k - 1) h n ≡ window buf (2 ^ k - 1) h n
window-set_past k small buf x zero h i lt word e = refl
window-set_past k small buf x (suc n) h i lt word e =
    ap₂ ◌∷◌ (get_or-set_ne buf i (bit_and h (2 ^ k - 1)) x 0 (rw e (slots_apart k small h n lt))) (
      window-set_past k small buf x n (add32 h 1) i (omega arith) (omega arith)
        (e ∙ ap (λ t. bit_and t (2 ^ k - 1)) (omega arith)))

-- A window with one more entry.
pub window-suc :
    (buf : List ℕ) (mask h n : ℕ)
    → h < 2 ^ 32
    → window buf mask h (suc n)
      ≡ window buf mask h n ++ (get_or buf (bit_and (add32 h n) mask) 0 ∷ [])
window-suc buf mask h zero word = ap (λ t. get_or buf (bit_and t mask) 0 ∷ []) (omega arith)
window-suc buf mask h (suc n) word =
    ap (λ t. get_or buf (bit_and h mask) 0 ∷ t)
      (window-suc buf mask (add32 h 1) n (omega arith)
        ∙ ap (λ t. window buf mask (add32 h 1) n ++ (get_or buf (bit_and t mask) 0 ∷ []))
            (omega arith))

-- How many entries the shared counters show.
abbrev pub fill : Spsc → ℕ
fill q = sub32 q.tail q.head

abbrev pub slot : Spsc → ℕ → ℕ
slot q t = get_or q.buf (bit_and t q.mask) 0

-- What the variables of a call say about the ring.
abbrev pub ProducerKnows : Spsc → Producer → Type 0
ProducerKnows q between_pushes = Unit {0}
ProducerKnows q (has_tail v t) = t ≡ q.tail
ProducerKnows q (has_room v t) = (t ≡ q.tail) × (fill q < q.cap)
ProducerKnows q (has_written v t) = (t ≡ q.tail) × (fill q < q.cap) × (slot q q.tail ≡ v)

abbrev pub ConsumerKnows : Spsc → Consumer → Type 0
ConsumerKnows q between_pops = Unit {0}
ConsumerKnows q (has_head h) = h ≡ q.head
ConsumerKnows q (has_entry h) = (h ≡ q.head) × (0 < fill q)
ConsumerKnows q (has_read h v) = (h ≡ q.head) × (0 < fill q) × (slot q q.head ≡ v)

pub record IsRunning (s : Threads) : Type 0 where
  pub valid : IsValid s.ring
  pub producer : ProducerKnows s.ring s.producer
  pub consumer : ConsumerKnows s.ring s.consumer

-- What a step does to the queue that the ring stands for, by its event.
abbrev pub Effect : Event → Spsc → Spsc → Type 0
Effect silent q q' = contents q' ≡ contents q
Effect full q q' = (contents q' ≡ contents q) × (length (contents q) ≡ q.cap)
Effect empty q q' = (contents q' ≡ contents q) × (contents q ≡ [])
Effect (pushed v) q q' = contents q' ≡ contents q ++ (v ∷ [])
Effect (popped v) q q' = contents q ≡ v ∷ contents q'

-- A step of one thread: the ring stays valid, the thread knows what it should, the event tells the
-- effect, and the other thread still knows what it did.
pub record Produced (q : Spsc) (r : Spsc × Producer × Event) : Type 0 where
  pub valid : IsValid r.0
  pub knows : ProducerKnows r.0 r.1
  pub effect : Effect r.2 q r.0
  pub same_cap : r.0.cap ≡ q.cap
  pub others : (c : Consumer) → ConsumerKnows q c → ConsumerKnows r.0 c

pub record Consumed (q : Spsc) (r : Spsc × Consumer × Event) : Type 0 where
  pub valid : IsValid r.0
  pub knows : ConsumerKnows r.0 r.1
  pub effect : Effect r.2 q r.0
  pub same_cap : r.0.cap ≡ q.cap
  pub others : (p : Producer) → ProducerKnows q p → ProducerKnows r.0 p

pub first_entry : (q : Spsc) → 0 < fill q → get_or (contents q) 0 0 ≡ slot q q.head
first_entry q n = ap (λ l. get_or l 0 0) (window_of_pos q.buf q.mask q.head (fill q) n)
