-- ===== src/Spsc/Calls.antt =====
-- The calls on a valid ring, in the form that the users of the rings need: what they return and the
-- queue that they leave.
use bvex_vdif_rfsoc.Base.{ℕ, ◌<◌, ◌≡◌, refl, ap, sym, ◌∙◌, ◌⊎◌, inl, inr, List, [], ◌∷◌, ◌++◌, true}
use bvex_vdif_rfsoc.Base.{Option, none, some, length, Bool}
use bvex_vdif_rfsoc.Spsc.{Spsc, spsc_init, spsc_push, spsc_pop}
use bvex_vdif_rfsoc.Spsc.Fifo.{pop, push_room, pop_nil, pop_cons}
use bvex_vdif_rfsoc.Spsc.Inv.{IsValid, spsc_push-IsValid, spsc_pop-IsValid}
use bvex_vdif_rfsoc.Spsc.Refine.{
  contents, spsc_push_refines, spsc_pop_refines, cap-spsc_push, cap-spsc_pop,
}

-- A push that finds room.
pub record Pushed (q : Spsc) (x : ℕ) : Type 0 where
  pub ring : Spsc
  pub returns : spsc_push q x ≡ (ring, true)
  pub valid : IsValid ring
  pub same_cap : ring.cap ≡ q.cap
  pub queue : contents ring ≡ contents q ++ (x ∷ [])

pub spsc_push-Pushed : (q : Spsc) (x : ℕ) → IsValid q → length (contents q) < q.cap → Pushed q x
spsc_push-Pushed q x v room = record {
  ring = (spsc_push q x).0;
  returns = ap (λ (b : Bool). ((spsc_push q x).0, b)) accepted;
  valid = spsc_push-IsValid x v;
  same_cap = cap-spsc_push q x;
  queue = ap (λ (p : List ℕ × Bool). p.0) pushes;
}
  where
    pushes :
        ◌≡◌ {A = List ℕ × Bool}
          (contents (spsc_push q x).0, (spsc_push q x).1)
          (contents q ++ (x ∷ []), true)
    pushes = spsc_push_refines x v ∙ push_room q.cap (contents q) x room

    accepted : (spsc_push q x).1 ≡ true
    accepted = ap (λ (p : List ℕ × Bool). p.1) pushes

-- A pop: of an empty ring, or of its oldest index.
pub record Popped (q : Spsc) (x : ℕ) : Type 0 where
  pub ring : Spsc
  pub returns : spsc_pop q ≡ (ring, some x)
  pub valid : IsValid ring
  pub same_cap : ring.cap ≡ q.cap
  pub queue : contents q ≡ x ∷ contents ring

pub record PoppedNone (q : Spsc) : Type 0 where
  pub ring : Spsc
  pub returns : spsc_pop q ≡ (ring, none)
  pub valid : IsValid ring
  pub same_cap : ring.cap ≡ q.cap
  pub before : contents q ≡ []
  pub queue : contents ring ≡ []

pub spsc_pop-cases : (q : Spsc) → IsValid q → PoppedNone q ⊎ ((x : ℕ) × Popped q x)
spsc_pop-cases q v = split (contents q) refl
  where
    pops : (xs : List ℕ) → contents q ≡ xs → (contents (spsc_pop q).0, (spsc_pop q).1) ≡ pop xs
    pops xs e = spsc_pop_refines v ∙ ap pop e

    split : (xs : List ℕ) → contents q ≡ xs → PoppedNone q ⊎ ((x : ℕ) × Popped q x)
    split [] e = inl (record {
      ring = (spsc_pop q).0;
      returns =
          ap (λ (o : Option ℕ). ((spsc_pop q).0, o))
            (ap (λ (p : List ℕ × Option ℕ). p.1) (pops [] e ∙ pop_nil));
      valid = spsc_pop-IsValid v;
      same_cap = cap-spsc_pop q;
      before = e;
      queue = ap (λ (p : List ℕ × Option ℕ). p.0) (pops [] e ∙ pop_nil);
    })
    split (x ∷ xs) e = inr (
      x,
      record {
        ring = (spsc_pop q).0;
        returns =
            ap (λ (o : Option ℕ). ((spsc_pop q).0, o))
              (ap (λ (p : List ℕ × Option ℕ). p.1) (pops (x ∷ xs) e ∙ pop_cons x xs));
        valid = spsc_pop-IsValid v;
        same_cap = cap-spsc_pop q;
        queue =
            e
            ∙ ap (λ t. x ∷ t)
                (sym (ap (λ (p : List ℕ × Option ℕ). p.0) (pops (x ∷ xs) e ∙ pop_cons x xs)));
      },
    )

-- A fresh ring holds nothing.
pub contents-spsc_init : (cap : ℕ) → contents (spsc_init cap) ≡ []
unfolding spsc_init
contents-spsc_init cap = refl

pub cap-spsc_init : (cap : ℕ) → (spsc_init cap).cap ≡ cap
unfolding spsc_init
cap-spsc_init cap = refl
