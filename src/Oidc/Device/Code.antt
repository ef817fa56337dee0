-- ===== src/Oidc/Device/Code.antt =====
-- apps/server/src/features/oidc/device.ts: user codes. `toUpperCase` and the random draws are
-- parameters: `draw i` is what the i-th `randomInt(20)` of one attempt returns.
pub mod Slips
use Prim.Native.String.{[], ◌∷◌}
use Prim.Native.String
use server_central.Prelude.{
  ℕ, zero, suc, ◌+◌, String, Char, code, Bool, true, false, not, ◌&&◌, ◌||◌, ◌++◌, List, Option,
  none, some, if◌then◌else◌, ◌==◌, ltb, length, length16,
}

abbrev pub user_code_alphabet : String
user_code_alphabet = "BCDFGHJKLMNPQRSTVWXZ"

abbrev pub user_code_length : ℕ
user_code_length = 8

-- `ALPHABET.includes(c)` for one character.
unfoldable pub has_char : String → Char → Bool
has_char [] c = false
has_char (d ∷ s) c = (code d == code c) || has_char s c

-- `[...s].filter((c) => ALPHABET.includes(c)).join("")`
unfoldable pub in_alphabet : String → String
unfolding has_char
in_alphabet [] = []
in_alphabet (c ∷ s) =
    let rest = in_alphabet s in if has_char user_code_alphabet c then c ∷ rest else rest

unfoldable pub normalize_user_code : (to_upper_case : String → String) → String → String
unfolding in_alphabet
normalize_user_code to_upper_case input = in_alphabet (to_upper_case input)

-- `code.slice(0, n)` and `code.slice(n)`
split_at : ℕ → String → String × String
split_at zero s = ([], s)
split_at (suc n) [] = ([], [])
split_at (suc n) (c ∷ s) = let (a, b) = split_at n s in (c ∷ a, b)

unfoldable pub format_user_code : String → String
unfolding split_at
format_user_code s = String.◌++◌ (split_at 4 s).0 (String.◌++◌ "-" (split_at 4 s).1)

-- A position at which two codes differ, with what stands there; `right` is none past the end.
pub record Difference : Type 0 where
  pub at : ℕ
  pub left : ℕ
  pub right : Option ℕ

abbrev head_code : String → Option ℕ
head_code [] = none
head_code (c ∷ s) = some (code c)

abbrev rest_of : String → String
rest_of [] = []
rest_of (c ∷ s) = s

abbrev is_code : Option ℕ → ℕ → Bool
is_code none x = false
is_code (some y) x = x == y

-- The loop over the first code; `none` is the early `return true` at the third difference.
pub differences : ℕ → List Difference → String → String → Option (List Difference)
differences i found [] b = some found
differences i found (c ∷ a) b = elim (is_code (head_code b) (code c)) [
  | true ↦ differences (i + 1) found a (rest_of b)
  | false ↦
      let more =
        found ++ List.◌∷◌ (record { at = i; left = code c; right = head_code b }) List.[] in
      elim (ltb 2 (length more)) [ true ↦ none | false ↦ differences (i + 1) more a (rest_of b) ]
]

-- Two neighbouring positions differ, and each holds the character that the other wants.
abbrev is_swap : Difference → Difference → Bool
is_swap x y = (y.at == x.at + 1) && is_code y.right x.left && is_code x.right y.left

pub far_apart : Option (List Difference) → Bool
far_apart none = true
far_apart (some List.[]) = false
far_apart (some (List.◌∷◌ x List.[])) = false
far_apart (some (List.◌∷◌ x (List.◌∷◌ y rest))) = not (is_swap x y)

unfoldable pub differs_enough : String → String → Bool
unfolding differences far_apart
differs_enough a b = far_apart (differences 0 List.[] a b)

-- The character at an index of the alphabet, as a text.
alphabet_at : String → ℕ → String
alphabet_at [] i = []
alphabet_at (c ∷ s) zero = c ∷ []
alphabet_at (c ∷ s) (suc i) = alphabet_at s i

-- One attempt: `user_code_length` draws.
unfoldable pub draw_code : (ℕ → ℕ) → ℕ → String → String
unfolding alphabet_at
draw_code draw zero so_far = so_far
draw_code draw (suc n) so_far =
    draw_code (λ i. draw (suc i)) n (String.◌++◌ so_far (alphabet_at user_code_alphabet (draw 0)))
