-- ===== src/Prelude/Text/Split.antt =====
-- Texts put together and taken apart: `a + b`, `s.split(c)` and `xs.join(sep)`.
use Prim.Native.Nat.{ℕ}
use Prim.Native.Char.{Char, code}
use Prim.Native.String.{String, [], ◌∷◌}
use mathlib.Core.Path.{◌≡◌, refl, ap}
use mathlib.Core.Bool.{Bool, true, false, ◌||◌, ◌&&◌}
use mathlib.Core.List.{List, ◌++◌}
use mathlib.Core.Logic.{inl, inr}
use mathlib.Core.Option.{Option, none, some, map}
use server_central.Prelude.Tests.{◌==◌, if◌then◌else◌, Bool-cases}

-- `s + t`
infixr 60 ◌+++◌
abbrev pub ◌+++◌ : String → String → String
[] +++ t = t
(c ∷ s) +++ t = c ∷ (s +++ t)

abbrev pub cons_head : Char → List String → List String
cons_head c List.[] = List.◌∷◌ (c ∷ []) List.[]
cons_head c (List.◌∷◌ s rest) = List.◌∷◌ (c ∷ s) rest

-- `s.split(c)` for a separator of one character: one part more than there are separators.
unfoldable pub split : ℕ → String → List String
split sep [] = List.◌∷◌ [] List.[]
split sep (c ∷ s) =
    let rest = split sep s in if code c == sep then List.◌∷◌ [] rest else cons_head c rest

-- `xs.join(sep)`
unfoldable pub join : String → List String → String
join sep List.[] = []
join sep (List.◌∷◌ x List.[]) = x
join sep (List.◌∷◌ x (List.◌∷◌ y rest)) = x +++ (sep +++ join sep (List.◌∷◌ y rest))

-- Every character passes the test.
unfoldable pub all_chars : (ℕ → Bool) → String → Bool
all_chars p [] = true
all_chars p (c ∷ s) = p (code c) && all_chars p s

-- `s.includes(c)` for one character.
unfoldable pub has_code : ℕ → String → Bool
has_code x [] = false
has_code x (c ∷ s) = (code c == x) || has_code x s

pub append_assoc : (s t u : String) → (s +++ t) +++ u ≡ s +++ (t +++ u)
append_assoc [] t u = refl
append_assoc (c ∷ s) t u = ap (λ r. c ∷ r) (append_assoc s t u)

pub append-nil : (s : String) → s +++ [] ≡ s
append-nil [] = refl
append-nil (c ∷ s) = ap (λ r. c ∷ r) (append-nil s)

-- The text before the first such character and the text after it, as `indexOf` and `slice` give them.
unfoldable pub cut_first : ℕ → String → Option (String × String)
cut_first x [] = none
cut_first x (c ∷ s) =
    if code c == x then some ([], s) else map (λ p. (c ∷ p.0, p.1)) (cut_first x s)

abbrev cut_or : Char → Bool → String → Option (String × String) → Option (String × String)
cut_or c here s (some (before, after)) = some (c ∷ before, after)
cut_or c true s none = some ([], s)
cut_or c false s none = none

-- The same for the last such character, by `lastIndexOf`.
unfoldable pub cut_last : ℕ → String → Option (String × String)
cut_last x [] = none
cut_last x (c ∷ s) = cut_or c (code c == x) s (cut_last x s)

pub split-cons :
    (x : ℕ) (s : String) → (h : String) × (t : List String) × (split x s ≡ List.◌∷◌ h t)
unfolding split
split-cons x [] = ([], List.[], refl)
split-cons x (c ∷ s) =
    let (h, t, e) = split-cons x s in
    elim (Bool-cases (code c == x)) [
      | inl same ↦ ([], split x s, rw same refl)
      | inr other ↦ (c ∷ h, t, rw (other, e) refl)
    ]

-- A separator between two texts.
pub split_append :
    (x : ℕ) (a : String) (c : Char) (b : String)
    → (code c == x) ≡ true
    → split x (a +++ (c ∷ b)) ≡ split x a ++ split x b
unfolding split
split_append x [] c b h = rw h refl
split_append x (d ∷ a) c b h =
    let (first, more, e) = split-cons x a in
    elim (Bool-cases (code d == x)) [
      | inl same ↦ rw (same, split_append x a c b h) refl
      | inr other ↦ rw (other, split_append x a c b h, e) refl
    ]
