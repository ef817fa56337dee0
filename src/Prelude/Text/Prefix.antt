-- ===== src/Prelude/Text/Prefix.antt =====
-- The laws of `startsWith`, and of a text that ends in `.*` with its last character dropped.
use Prim.Native.String.{String, [], ◌∷◌}
use mathlib.Core.Path.{◌≡◌, refl, ap₂}
use mathlib.Core.Logic.{◌⊎◌, inl, inr}
use mathlib.Core.Bool.{true, false}
use native.Mathlib.Omega.{arith}
use text.Mathlib.TextEquality.{Char-path}
use server_central.Prelude.Text.{starts_with, drop_last, ends_with_wildcard}

pub starts_with_refl : (s : String) → starts_with s s ≡ true
unfolding starts_with
starts_with_refl [] = refl
starts_with_refl (c ∷ s) = ground (arith, starts_with_refl s)

pub starts_with_trans :
    (s t u : String) → starts_with s t ≡ true → starts_with t u ≡ true → starts_with s u ≡ true
unfolding starts_with
starts_with_trans s t [] h k = ground arith
starts_with_trans [] [] (c ∷ u) h k = cc
starts_with_trans [] (b ∷ t) (c ∷ u) h k = cc
starts_with_trans (a ∷ s) [] (c ∷ u) h k = cc
starts_with_trans (a ∷ s) (b ∷ t) (c ∷ u) h k = ground (arith, starts_with_trans s t u)

-- Of two prefixes of one text one is a prefix of the other.
pub starts_with_total :
    (s t u : String)
    → starts_with s t ≡ true
    → starts_with s u ≡ true
    → (starts_with t u ≡ true) ⊎ (starts_with u t ≡ true)
unfolding starts_with
starts_with_total s [] u h k = inr (ground arith)
starts_with_total s (b ∷ t) [] h k = inl refl
starts_with_total [] (b ∷ t) (c ∷ u) h k = cc
starts_with_total (a ∷ s) (b ∷ t) (c ∷ u) h k = ground (arith, starts_with_total s t u)

pub starts_with-drop_last_self : (s : String) → starts_with s (drop_last s) ≡ true
unfolding starts_with drop_last
starts_with-drop_last_self [] = refl
starts_with-drop_last_self (a ∷ []) = refl
starts_with-drop_last_self (a ∷ b ∷ s) = ground (arith, starts_with-drop_last_self (b ∷ s))

-- A prefix is the whole text, or is left when the last character is dropped.
pub starts_with_cases :
    (s t : String) → starts_with s t ≡ true → (t ≡ s) ⊎ (starts_with (drop_last s) t ≡ true)
unfolding starts_with drop_last
starts_with_cases [] [] h = inl refl
starts_with_cases [] (c ∷ t) h = cc
starts_with_cases (a ∷ []) [] h = inr refl
starts_with_cases (a ∷ []) (c ∷ []) h = inl (ap₂ ◌∷◌ (Char-path c a (ground arith)) refl)
starts_with_cases (a ∷ []) (c ∷ d ∷ t) h = ground arith
starts_with_cases (a ∷ b ∷ s) [] h = inr refl
starts_with_cases (a ∷ b ∷ s) (c ∷ t) h = ground (arith, Char-path c a, starts_with_cases (b ∷ s) t)

-- Without its `*` a text that ends in `.*` no longer ends so.
pub ends_with_wildcard-drop_last :
    (s : String) → ends_with_wildcard s ≡ true → ends_with_wildcard (drop_last s) ≡ false
unfolding ends_with_wildcard drop_last
ends_with_wildcard-drop_last [] h = cc
ends_with_wildcard-drop_last (a ∷ []) h = refl
ends_with_wildcard-drop_last (a ∷ b ∷ []) h = ground arith
ends_with_wildcard-drop_last (a ∷ b ∷ c ∷ []) h = ground arith
ends_with_wildcard-drop_last (a ∷ b ∷ c ∷ d ∷ s) h =
    ground (arith, ends_with_wildcard-drop_last (b ∷ c ∷ d ∷ s))

-- No text that ends in `.*` has a one-character text under it.
pub starts_with_single :
    (s : String) → ends_with_wildcard s ≡ true → starts_with "*" (drop_last s) ≡ false
unfolding ends_with_wildcard starts_with drop_last
starts_with_single [] h = cc
starts_with_single (a ∷ []) h = ground arith
starts_with_single (a ∷ b ∷ []) h = ground arith
starts_with_single (a ∷ b ∷ c ∷ s) h = ground arith
