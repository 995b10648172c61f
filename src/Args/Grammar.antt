-- ===== src/Args/Grammar.antt =====
-- The command lines that the loop over `argv` takes: settings one after the other, applied from left
-- to right.
use mathlib.Core.Path.{subst}
use bvex_vdif_rfsoc.Base.{List, [], ◌∷◌, Option, none, some, ◌≡◌, refl, sym, ap, ◌∙◌, ◌⊎◌, inl, inr}
use bvex_vdif_rfsoc.Text.{Bytes}
use bvex_vdif_rfsoc.Args.Loop.{and_then, last_word, on_word, parse_loop}

-- An option with its value, or one without.
pub data Setting (K F : Type 0) : Type 0 where
  with_value : K → Bytes → Setting K F
  switch : F → Setting K F

-- What comparing the words with the texts of the options comes to.
pub record AreTold {K F : Type 0} (key_text : K → Bytes) (flag_text : F → Bytes)
    (key_of : Bytes → Option K) (flag_of : Bytes → Option F) : Type 0 where
  pub key_sound : (w : Bytes) (k : K) → key_of w ≡ some k → w ≡ key_text k
  pub key_complete : (k : K) → key_of (key_text k) ≡ some k
  pub flag_sound : (w : Bytes) (f : F) → flag_of w ≡ some f → w ≡ flag_text f
  pub flag_complete : (f : F) → flag_of (flag_text f) ≡ some f
  pub apart : (f : F) → key_of (flag_text f) ≡ none

module _ {O : Type 0} where
  and_then_cong :
      (x : Option O) (f g : O → Option O) → ((o : O) → f o ≡ g o) → and_then x f ≡ and_then x g
  and_then_cong none f g h = refl
  and_then_cong (some o) f g h = h o

  and_then-some :
      (x : Option O) (next : O → Option O) {o' : O}
      → and_then x next ≡ some o'
      → (o : O) × (x ≡ some o) × (next o ≡ some o')
  and_then-some none next e = cc
  and_then-some (some o) next e = (o, refl, e)

module _ {F O : Type 0} where
  last_word-some :
      (flag : Option F) (on_flag : F → O) {o' : O}
      → last_word flag on_flag ≡ some o'
      → (f : F) × (flag ≡ some f) × (some (on_flag f) ≡ some o')
  last_word-some none on_flag e = cc
  last_word-some (some f) on_flag e = (f, refl, e)

module _ {K F O : Type 0} where
  on_word-some :
      (key : Option K) (flag : Option F) (on_key : K → Option O) (on_flag : F → Option O) {o' : O}
      → on_word key flag on_key on_flag ≡ some o'
      → ((k : K) × (key ≡ some k) × (on_key k ≡ some o'))
        ⊎ ((f : F) × (flag ≡ some f) × (on_flag f ≡ some o'))
  on_word-some (some k) flag on_key on_flag e = inl (k, refl, e)
  on_word-some none (some f) on_key on_flag e = inr (f, refl, e)
  on_word-some none none on_key on_flag e = cc

module _ {K F O : Type 0} (key_text : K → Bytes) (flag_text : F → Bytes)
    (set_key : K → Bytes → O → Option O) (set_flag : F → O → O) where
  abbrev pub say : Setting K F → List Bytes → List Bytes
  say (with_value k v) rest = key_text k ∷ v ∷ rest
  say (switch f) rest = flag_text f ∷ rest

  -- The words that say the settings.
  abbrev pub written : List (Setting K F) → List Bytes
  written [] = []
  written (s ∷ ss) = say s (written ss)

  abbrev pub apply_one : Setting K F → O → Option O
  apply_one (with_value k v) o = set_key k v o
  apply_one (switch f) o = some (set_flag f o)

  abbrev pub apply_all : List (Setting K F) → O → Option O
  apply_all [] o = some o
  apply_all (s ∷ ss) o = and_then (apply_one s o) (apply_all ss)

  -- The words are settings that take one state to another.
  abbrev pub Says : List Bytes → O → O → Type 0
  Says argv o o' = (ss : List (Setting K F)) × (argv ≡ written ss) × (apply_all ss o ≡ some o')

  module _ {key_of : Bytes → Option K} {flag_of : Bytes → Option F}
      (t : AreTold key_text flag_text key_of flag_of) where
    parse_loop-flag :
        (f : F) (rest : List Bytes) (o : O)
        → parse_loop key_of flag_of set_key set_flag (flag_text f ∷ rest) o
          ≡ parse_loop key_of flag_of set_key set_flag rest (set_flag f o)
    unfolding parse_loop
    parse_loop-flag f [] o = rw (t.flag_complete f)
    parse_loop-flag f (v ∷ rest) o = cc (t.apart f, t.flag_complete f)

    -- Settings that are written out are applied.
    pub parse_loop-written :
        (ss : List (Setting K F)) (o : O)
        → parse_loop key_of flag_of set_key set_flag (written ss) o ≡ apply_all ss o
    unfolding parse_loop
    parse_loop-written [] o = refl
    parse_loop-written (with_value k v ∷ ss) o =
        ap
          (λ key.
            on_word key (flag_of (key_text k))
              (λ j.
                and_then (set_key j v o) (parse_loop key_of flag_of set_key set_flag (written ss)))
              (λ f. parse_loop key_of flag_of set_key set_flag (v ∷ written ss) (set_flag f o)))
          (t.key_complete k)
        ∙ and_then_cong (set_key k v o) (parse_loop key_of flag_of set_key set_flag (written ss))
            (apply_all ss) (parse_loop-written ss)
    parse_loop-written (switch f ∷ ss) o =
        parse_loop-flag f (written ss) o ∙ parse_loop-written ss (set_flag f o)

    Says-more :
        (s : Setting K F) (argv : List Bytes) (o o1 o' : O)
        → apply_one s o ≡ some o1
        → Says argv o1 o'
        → Says (say s argv) o o'
    Says-more s argv o o1 o' e (ss, w, a) =
        (s ∷ ss, ap (say s) w, ap (λ x. and_then x (apply_all ss)) e ∙ a)

    last_word_sound :
        (w : Bytes) (o o' : O)
        → parse_loop key_of flag_of set_key set_flag (w ∷ []) o ≡ some o'
        → Says (w ∷ []) o o'
    unfolding parse_loop
    last_word_sound w o o' e =
        let r : (f : F) × (flag_of w ≡ some f) × (some (set_flag f o) ≡ some o') =
          last_word-some (flag_of w) (λ f. set_flag f o) e in
        subst (λ x. Says (x ∷ []) o o') (sym (t.flag_sound w r.0 r.1))
          (Says-more (switch r.0) [] o (set_flag r.0 o) o' refl ([], refl, r.2))

    -- Accepted words are settings that are written out.
    pub parse_loop_sound :
        (argv : List Bytes) (o o' : O)
        → parse_loop key_of flag_of set_key set_flag argv o ≡ some o'
        → Says argv o o'
    unfolding parse_loop
    parse_loop_sound [] o o' e = ([], refl, e)
    parse_loop_sound (w ∷ []) o o' e = last_word_sound w o o' e
    parse_loop_sound (w ∷ v ∷ rest) o o' e = elim (on_word-some (key_of w) (flag_of w) _ _ e) [
      | inl (k, is_key, r) ↦
          let (o1, set, more) = and_then-some (set_key k v o) _ r in
          subst (λ x. Says (x ∷ v ∷ rest) o o') (sym (t.key_sound w k is_key))
            (Says-more (with_value k v) rest o o1 o' set (parse_loop_sound rest o1 o' more))
      | inr (f, is_flag, r) ↦
          subst (λ x. Says (x ∷ v ∷ rest) o o') (sym (t.flag_sound w f is_flag))
            (Says-more (switch f) (v ∷ rest) o (set_flag f o) o' refl
              (parse_loop_sound (v ∷ rest) (set_flag f o) o' r))
    ]
