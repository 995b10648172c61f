-- ===== src/Args/Loop.antt =====
-- The loop over `argv` that host/vdif_recorder.c and host/vdif_gen.c share in shape: a word is
-- compared with one option after the other; an option with a value takes the word behind it, and is
-- no option when there is none.
use bvex_vdif_rfsoc.Base.{List, [], ◌∷◌, Option, none, some, if◌then◌else◌, ◌≡◌, arith}
use bvex_vdif_rfsoc.Text.{Bytes, same}
use bvex_vdif_rfsoc.Text.Numbers.{same_iff}

-- The first of the options whose text is the word.
module _ {K : Type 0} (text : K → Bytes) where
  unfoldable pub find_word : List K → Bytes → Option K
  unfolding same
  find_word [] w = none
  find_word (k ∷ ks) w = if same w (text k) then some k else find_word ks w

  pub find_word_sound : (ks : List K) (w : Bytes) (k : K) → find_word ks w ≡ some k → w ≡ text k
  unfolding find_word
  find_word_sound [] w k e = cc
  find_word_sound (j ∷ ks) w k e = ground (arith, same_iff w (text j), find_word_sound ks w k)

module _ {O : Type 0} where
  abbrev pub and_then : Option O → (O → Option O) → Option O
  and_then none next = none
  and_then (some o) next = next o

module _ {F O : Type 0} where
  -- The last word can only be an option without a value.
  abbrev pub last_word : Option F → (F → O) → Option O
  last_word none on_flag = none
  last_word (some f) on_flag = some (on_flag f)

module _ {K F O : Type 0} where
  -- By what a word is: an option with a value, one without, or neither, which is the usage text.
  abbrev pub on_word : Option K → Option F → (K → Option O) → (F → Option O) → Option O
  on_word (some k) flag on_key on_flag = on_key k
  on_word none (some f) on_key on_flag = on_flag f
  on_word none none on_key on_flag = none

module _ {K F O : Type 0} (key_of : Bytes → Option K) (flag_of : Bytes → Option F)
    (set_key : K → Bytes → O → Option O) (set_flag : F → O → O) where
  -- `none` is the exit with the usage text.
  unfoldable pub parse_loop : List Bytes → O → Option O
  parse_loop [] o = some o
  parse_loop (w ∷ []) o = last_word (flag_of w) (λ f. set_flag f o)
  parse_loop (w ∷ v ∷ rest) o =
      on_word (key_of w) (flag_of w) (λ k. and_then (set_key k v o) (parse_loop rest))
        (λ f. parse_loop (v ∷ rest) (set_flag f o))
