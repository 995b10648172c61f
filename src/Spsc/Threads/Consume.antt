-- ===== src/Spsc/Threads/Consume.antt =====
-- A step of the consumer.
use bvex_vdif_rfsoc.Base.{ℕ, suc, ◌<◌, ◌≡◌, refl, ap, sym, ◌∙◌}
use bvex_vdif_rfsoc.Base.{List, [], ◌∷◌, arith, length, add32}
use bvex_vdif_rfsoc.Spsc.{Spsc}
use bvex_vdif_rfsoc.Spsc.Inv.{IsValid, pow_bounds}
use bvex_vdif_rfsoc.Base.{Bool-cases, inl, inr, ◌==◌, ==_iff}
use bvex_vdif_rfsoc.Spsc.Refine.{window, contents, window_of_pos}
use bvex_vdif_rfsoc.Spsc.Threads.{
  Producer, between_pushes, has_tail, has_room, has_written, Consumer, between_pops, has_head,
  has_entry, has_read, consume,
}
use bvex_vdif_rfsoc.Spsc.Threads.Knows.{fill, slot, ProducerKnows, ConsumerKnows, Consumed}
use bvex_vdif_rfsoc.Spsc.Refine.{length-contents}

no_entries : (xs : List ℕ) → length xs ≡ 0 → xs ≡ []
no_entries [] e = refl
no_entries (x ∷ xs) e = absurd (omega arith)

-- The ring after the store of `head`.
abbrev released : Spsc → Spsc
released q = record q { head = add32 q.head 1 }

fill-released : (q : Spsc) → IsValid q → 0 < fill q → suc (fill (released q)) ≡ fill q
fill-released q i some =
    omega (arith, i.fill, i.cap_pow, i.head_word, i.tail_word, pow_bounds i.log i.small)

released-IsValid : (q : Spsc) → IsValid q → 0 < fill q → IsValid (released q)
released-IsValid q i some = record {
  log = i.log;
  small = i.small;
  cap_pow = i.cap_pow;
  mask_ones = i.mask_ones;
  room = i.room;
  head_word = omega arith;
  tail_word = i.tail_word;
  fill = omega (arith, fill-released q i some, i.fill);
}

contents-released :
    (q : Spsc) → IsValid q → 0 < fill q → contents q ≡ slot q q.head ∷ contents (released q)
contents-released q i some =
    window_of_pos q.buf q.mask q.head (fill q) some
    ∙ ap (λ n. slot q q.head ∷ window q.buf q.mask (add32 q.head 1) n)
        (omega (arith, fill-released q i some))

released-ProducerKnows :
    (q : Spsc) (p : Producer)
    → IsValid q
    → 0 < fill q
    → ProducerKnows q p
    → ProducerKnows (released q) p
released-ProducerKnows q between_pushes i some k = tt
released-ProducerKnows q (has_tail v t) i some k = k
released-ProducerKnows q (has_room v t) i some k = (k.0, omega (arith, fill-released q i some, k.1))
released-ProducerKnows q (has_written v t) i some k =
    (k.0, omega (arith, fill-released q i some, k.1), k.2)

pub consume-Consumed :
    (q : Spsc) (c : Consumer) → IsValid q → ConsumerKnows q c → Consumed q (consume q c)
unfolding consume
consume-Consumed q between_pops i k = record {
  valid = i;
  knows = refl;
  effect = refl;
  same_cap = refl;
  others = λ p kp. kp;
}
consume-Consumed q (has_head h) i k = elim (Bool-cases (h == q.tail)) [
  | inl e ↦ rw e (record {
    valid = i;
    knows = tt;
    effect = (
      refl,
      no_entries (contents q)
          (omega (arith, length-contents q, k, (==_iff h q.tail).0 e, i.tail_word)),
    );
    same_cap = refl;
    others = λ p kp. kp;
  })
  | inr e ↦ rw e (record {
    valid = i;
    knows = (k, ground (arith, i.tail_word, i.head_word));
    effect = refl;
    same_cap = refl;
    others = λ p kp. kp;
  })
]
consume-Consumed q (has_entry h) i k = record {
  valid = i;
  knows = (k.0, k.1, sym (ap (slot q) k.0));
  effect = refl;
  same_cap = refl;
  others = λ p kp. kp;
}
consume-Consumed q (has_read h v) i k = rw (k.0) (record {
  valid = released-IsValid q i k.1;
  knows = tt;
  effect = contents-released q i k.1 ∙ ap (λ x. x ∷ contents (released q)) k.2;
  same_cap = refl;
  others = λ p kp. released-ProducerKnows q p i k.1 kp;
})
