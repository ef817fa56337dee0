-- ===== src/Prelude/Text/Chars.antt =====
-- Texts of which every character passes a test: they are not trimmed, and a list of them joined by a
-- separator that none of them has is split into the same list.
use Prim.Native.Nat.{ℕ}
use Prim.Native.Char.{Char, code}
use Prim.Native.String.{String, [], ◌∷◌}
use mathlib.Core.Path.{◌≡◌, refl, ◌∙◌}
use mathlib.Core.Bool.{Bool, true, false, not}
use mathlib.Core.List.{List}
use native.Mathlib.Omega.{arith}
use server_central.Prelude.Tests.{◌==◌, and-eq-true}
use server_central.Prelude.Lists.{All}
use server_central.Prelude.Text.{trim_start, trim_end, trim, is_space}
use server_central.Prelude.Text.Split.{◌+++◌, split, split_append, join, all_chars, has_code}

pub all_chars-append :
    (p : ℕ → Bool) (s t : String)
    → all_chars p s ≡ true
    → all_chars p t ≡ true
    → all_chars p (s +++ t) ≡ true
unfolding all_chars
all_chars-append p [] t h k = k
all_chars-append p (c ∷ s) t h k = ground (arith, all_chars-append p s t)

pub all_chars-join :
    (p : ℕ → Bool) (sep : String) (xs : List String)
    → all_chars p sep ≡ true
    → All (λ x. all_chars p x ≡ true) xs
    → all_chars p (join sep xs) ≡ true
unfolding join all_chars
all_chars-join p sep List.[] h k = refl
all_chars-join p sep (List.◌∷◌ x List.[]) h (k, ks) = k
all_chars-join p sep (List.◌∷◌ x (List.◌∷◌ y xs)) h (k, ks) =
    all_chars-append p x (sep +++ join sep (List.◌∷◌ y xs)) k (
      all_chars-append p sep (join sep (List.◌∷◌ y xs)) h
        (all_chars-join p sep (List.◌∷◌ y xs) h ks))

pub all_chars_mono :
    (p q : ℕ → Bool)
    → ((x : ℕ) → p x ≡ true → q x ≡ true)
    → (s : String) → all_chars p s ≡ true
    → all_chars q s ≡ true
unfolding all_chars
all_chars_mono p q imp [] h = refl
all_chars_mono p q imp (c ∷ s) h =
    let (a, b) = and-eq-true {a = p (code c)} h in rw (imp (code c) a) (all_chars_mono p q imp s b)

trim_start_plain : (s : String) → all_chars (λ x. not (is_space x)) s ≡ true → trim_start s ≡ s
unfolding all_chars trim_start
trim_start_plain [] h = refl
trim_start_plain (c ∷ s) h = let f : is_space (code c) ≡ false = ground arith in rw f refl

trim_end_plain : (s : String) → all_chars (λ x. not (is_space x)) s ≡ true → trim_end s ≡ s
unfolding all_chars trim_end
trim_end_plain [] h = refl
trim_end_plain (c ∷ []) h = let f : is_space (code c) ≡ false = ground arith in rw f refl
trim_end_plain (c ∷ d ∷ s) h = rw (trim_end_plain (d ∷ s) (ground arith)) refl

pub trim_plain : (s : String) → all_chars (λ x. not (is_space x)) s ≡ true → trim s ≡ s
unfolding trim
trim_plain s h = rw (trim_start_plain s h) (trim_end_plain s h)

pub has_code-false :
    (x : ℕ) (s : String) → all_chars (λ y. not (y == x)) s ≡ true → has_code x s ≡ false
unfolding all_chars has_code
has_code-false x [] h = refl
has_code-false x (c ∷ s) h = ground (arith, has_code-false x s)

pub split_plain :
    (x : ℕ) (s : String) → all_chars (λ y. not (y == x)) s ≡ true → split x s ≡ List.◌∷◌ s List.[]
unfolding all_chars split
split_plain x [] h = refl
split_plain x (c ∷ s) h =
    let (a, b) = and-eq-true {a = not (code c == x)} h in
    let f : (code c == x) ≡ false = ground arith in rw (f, split_plain x s b) refl

pub split-join :
    (c : Char) (x : String) (xs : List String)
    → All (λ s. all_chars (λ y. not (y == code c)) s ≡ true) (List.◌∷◌ x xs)
    → split (code c) (join (c ∷ []) (List.◌∷◌ x xs)) ≡ List.◌∷◌ x xs
unfolding join
split-join c x List.[] (h, hs) = split_plain (code c) x h
split-join c x (List.◌∷◌ y xs) (h, hs) =
    split_append (code c) x c (join (c ∷ []) (List.◌∷◌ y xs)) (ground arith)
    ∙ rw (split_plain (code c) x h, split-join c y xs hs) refl
