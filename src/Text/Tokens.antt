-- ===== src/Text/Tokens.antt =====
-- Words joined by a separator, and cut again.
use bvex_vdif_rfsoc.Base.{ℕ, ◌≡◌, refl, ap, ◌∙◌, List, [], ◌∷◌, ◌++◌, Bool, true, false, arith}
use bvex_vdif_rfsoc.Text.{Bytes, flush, split, tokens}

-- A word that is not empty and holds no delimiter.
abbrev pub Clean : (ℕ → Bool) → Bytes → Type 0
Clean is_delim [] = Unit {0}
Clean is_delim (c ∷ s) = (is_delim c ≡ false) × Clean is_delim s

abbrev pub IsToken : (ℕ → Bool) → Bytes → Type 0
IsToken is_delim [] = ⊥
IsToken is_delim (c ∷ s) = Clean is_delim (c ∷ s)

abbrev pub AllTokens : (ℕ → Bool) → List Bytes → Type 0
AllTokens is_delim [] = Unit {0}
AllTokens is_delim (w ∷ ws) = IsToken is_delim w × AllTokens is_delim ws

-- A text that ends the word before it.
abbrev pub Breaks : (ℕ → Bool) → Bytes → Type 0
Breaks is_delim [] = Unit {0}
Breaks is_delim (c ∷ s) = is_delim c ≡ true

-- The words with a separator between two of them, and `tail` behind the last.
abbrev pub joined : ℕ → List Bytes → Bytes → Bytes
joined sep [] tail = tail
joined sep (w ∷ []) tail = w ++ tail
joined sep (w ∷ v ∷ ws) tail = w ++ (sep ∷ joined sep (v ∷ ws) tail)

split-append :
    (is_delim : ℕ → Bool) (w s : Bytes)
    → Clean is_delim w
    → Breaks is_delim s
    → split is_delim (w ++ s) ≡ (w, tokens is_delim s)
unfolding split tokens
split-append is_delim [] [] c b = refl
split-append is_delim [] (x ∷ s) c b = ground arith
split-append is_delim (x ∷ w) s c b = ground (arith, split-append is_delim w s c.1 b)

tokens-append :
    (is_delim : ℕ → Bool) (w s : Bytes)
    → IsToken is_delim w
    → Breaks is_delim s
    → tokens is_delim (w ++ s) ≡ w ∷ tokens is_delim s
unfolding tokens
tokens-append is_delim [] s h b = absurd h
tokens-append is_delim (c ∷ w) s h b =
    ap (λ (p : Bytes × List Bytes). flush p.0 p.1) (split-append is_delim (c ∷ w) s h b)

tokens-delim :
    (is_delim : ℕ → Bool) (c : ℕ) (s : Bytes)
    → is_delim c ≡ true
    → tokens is_delim (c ∷ s) ≡ tokens is_delim s
unfolding tokens split
tokens-delim is_delim c s d = ground arith

pub tokens-joined :
    (is_delim : ℕ → Bool) (sep : ℕ) (ws : List Bytes) (tail : Bytes)
    → is_delim sep ≡ true
    → AllTokens is_delim ws
    → Breaks is_delim tail
    → tokens is_delim tail ≡ []
    → tokens is_delim (joined sep ws tail) ≡ ws
tokens-joined is_delim sep [] tail d a b e = e
tokens-joined is_delim sep (w ∷ []) tail d a b e =
    tokens-append is_delim w tail a.0 b ∙ ap (λ t. w ∷ t) e
tokens-joined is_delim sep (w ∷ v ∷ ws) tail d a b e =
    tokens-append is_delim w (sep ∷ joined sep (v ∷ ws) tail) a.0 d
    ∙ ap (λ t. w ∷ t)
        (tokens-delim is_delim sep (joined sep (v ∷ ws) tail) d
          ∙ tokens-joined is_delim sep (v ∷ ws) tail d a.1 b e)

flush-AllTokens :
    (is_delim : ℕ → Bool) (w : Bytes) (ts : List Bytes)
    → Clean is_delim w
    → AllTokens is_delim ts
    → AllTokens is_delim (flush w ts)
flush-AllTokens is_delim [] ts c a = a
flush-AllTokens is_delim (x ∷ w) ts c a = (c, a)

split-AllTokens :
    (is_delim : ℕ → Bool) (s : Bytes)
    → Clean is_delim (split is_delim s).0 × AllTokens is_delim (split is_delim s).1
unfolding split
split-AllTokens is_delim [] = (tt, tt)
split-AllTokens is_delim (c ∷ s) =
    let r = split-AllTokens is_delim s in
    let f = flush-AllTokens is_delim (split is_delim s).0 (split is_delim s).1 r.0 r.1 in
    ground (arith, r, f)

-- Every token is a word without delimiters.
pub tokens-AllTokens : (is_delim : ℕ → Bool) (s : Bytes) → AllTokens is_delim (tokens is_delim s)
unfolding tokens
tokens-AllTokens is_delim s =
    let r = split-AllTokens is_delim s in
    flush-AllTokens is_delim (split is_delim s).0 (split is_delim s).1 r.0 r.1
