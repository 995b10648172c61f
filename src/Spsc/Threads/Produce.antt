-- ===== src/Spsc/Threads/Produce.antt =====
-- A step of the producer.
use bvex_vdif_rfsoc.Base.{ℕ, suc, ◌-◌, ◌^◌, ◌<◌, ◌≡◌, refl, ap, sym, ◌∙◌}
use bvex_vdif_rfsoc.Base.{[], ◌∷◌, ◌++◌, arith, get_or, set, add32, sub32, bit_and}
use bvex_vdif_rfsoc.Base.{length-set, get_or-set_self}
use bvex_vdif_rfsoc.Spsc.{Spsc}
use bvex_vdif_rfsoc.Spsc.Inv.{IsValid, pow_bounds}
use bvex_vdif_rfsoc.Base.{Bool-cases, inl, inr, leb}
use bvex_vdif_rfsoc.Spsc.Refine.{contents, slot_in}
use bvex_vdif_rfsoc.Spsc.Threads.{
  Producer, between_pushes, has_tail, has_room, has_written, Consumer, between_pops, has_head,
  has_entry, has_read, produce,
}
use bvex_vdif_rfsoc.Spsc.Threads.Knows.{
  window-set_past, window-suc, first_entry, fill, slot, ProducerKnows, ConsumerKnows, Produced,
}
use bvex_vdif_rfsoc.Spsc.Refine.{length-contents}

-- The ring with an entry in the slot that `tail` points to.
abbrev stored : Spsc → ℕ → Spsc
stored q v = record q { buf = set q.buf (bit_and q.tail q.mask) v }

contents-stored :
    (q : Spsc) (v : ℕ) → IsValid q → fill q < q.cap → contents (stored q v) ≡ contents q
contents-stored q v i room = rw i.mask_ones (
    window-set_past i.log i.small q.buf v (fill q) q.head (bit_and q.tail (2 ^ i.log - 1))
      (omega (arith, i.cap_pow)) i.head_word
      (ap (λ t. bit_and t (2 ^ i.log - 1)) (omega (arith, i.tail_word, i.head_word))))

stored-IsValid : (q : Spsc) (v : ℕ) → IsValid q → IsValid (stored q v)
stored-IsValid q v i = record {
  log = i.log;
  small = i.small;
  cap_pow = i.cap_pow;
  mask_ones = i.mask_ones;
  room = length-set q.buf (bit_and q.tail q.mask) v ∙ i.room;
  head_word = i.head_word;
  tail_word = i.tail_word;
  fill = i.fill;
}

slot-stored : (q : Spsc) (v : ℕ) → IsValid q → slot (stored q v) q.tail ≡ v
slot-stored q v i =
    get_or-set_self q.buf (bit_and q.tail q.mask) v 0
      (rw i.mask_ones (omega (arith, slot_in i.log i.small q.tail, i.room, i.cap_pow)))

-- The consumer's side does not see the producer's store into `buf`.
stored-ConsumerKnows :
    (q : Spsc) (v : ℕ) (c : Consumer)
    → IsValid q
    → fill q < q.cap
    → ConsumerKnows q c
    → ConsumerKnows (stored q v) c
stored-ConsumerKnows q v between_pops i room k = tt
stored-ConsumerKnows q v (has_head h) i room k = k
stored-ConsumerKnows q v (has_entry h) i room k = k
stored-ConsumerKnows q v (has_read h x) i room k = (
  k.0,
  k.1,
  sym (first_entry (stored q v) k.1)
      ∙ ap (λ l. get_or l 0 0) (contents-stored q v i room)
      ∙ first_entry q k.1
      ∙ k.2,
)

-- The ring after the store of `tail`.
abbrev published : Spsc → Spsc
published q = record q { tail = add32 q.tail 1 }

fill-published : (q : Spsc) → IsValid q → fill q < q.cap → fill (published q) ≡ suc (fill q)
fill-published q i room =
    omega (arith, i.cap_pow, i.head_word, i.tail_word, pow_bounds i.log i.small)

published-IsValid : (q : Spsc) → IsValid q → fill q < q.cap → IsValid (published q)
published-IsValid q i room = record {
  log = i.log;
  small = i.small;
  cap_pow = i.cap_pow;
  mask_ones = i.mask_ones;
  room = i.room;
  head_word = i.head_word;
  tail_word = omega arith;
  fill = omega (arith, fill-published q i room);
}

contents-published :
    (q : Spsc)
    → IsValid q
    → fill q < q.cap
    → contents (published q) ≡ contents q ++ (slot q q.tail ∷ [])
contents-published q i room = rw (fill-published q i room) (
    window-suc q.buf q.mask q.head (fill q) i.head_word
    ∙ ap (λ t. contents q ++ (slot q t ∷ [])) (omega (arith, i.head_word, i.tail_word)))

published-ConsumerKnows :
    (q : Spsc) (c : Consumer)
    → IsValid q
    → fill q < q.cap
    → ConsumerKnows q c
    → ConsumerKnows (published q) c
published-ConsumerKnows q between_pops i room k = tt
published-ConsumerKnows q (has_head h) i room k = k
published-ConsumerKnows q (has_entry h) i room k = (k.0, omega (arith, fill-published q i room))
published-ConsumerKnows q (has_read h x) i room k =
    (k.0, omega (arith, fill-published q i room), k.2)

pub produce-Produced :
    (v : ℕ) (q : Spsc) (p : Producer) → IsValid q → ProducerKnows q p → Produced q (produce v q p)
unfolding produce
produce-Produced v q between_pushes i k = record {
  valid = i;
  knows = refl;
  effect = refl;
  same_cap = refl;
  others = λ c kc. kc;
}
produce-Produced v q (has_tail x t) i k = elim (Bool-cases (leb q.cap (sub32 t q.head))) [
  | inl e ↦ rw e (record {
    valid = i;
    knows = tt;
    effect = (refl, ground (arith, length-contents q, i.fill));
    same_cap = refl;
    others = λ c kc. kc;
  })
  | inr e ↦ rw e (record {
    valid = i;
    knows = (k, ground arith);
    effect = refl;
    same_cap = refl;
    others = λ c kc. kc;
  })
]
produce-Produced v q (has_room x t) i k = rw (k.0) (record {
  valid = stored-IsValid q x i;
  knows = (refl, k.1, slot-stored q x i);
  effect = contents-stored q x i k.1;
  same_cap = refl;
  others = λ c kc. stored-ConsumerKnows q x c i k.1 kc;
})
produce-Produced v q (has_written x t) i k = rw (k.0) (record {
  valid = published-IsValid q i k.1;
  knows = tt;
  effect = contents-published q i k.1 ∙ ap (λ y. contents q ++ (y ∷ [])) k.2;
  same_cap = refl;
  others = λ c kc. published-ConsumerKnows q c i k.1 kc;
})
