-- ===== src/Prelude/Text/Sort.antt =====
-- `xs.sort()` on texts: JavaScript compares their UTF-16 units.
use Prim.Native.Nat.{ℕ, ◌+◌, ◌-◌, ◌/◌, ◌%◌}
use Prim.Native.Char.{code}
use Prim.Native.String.{String}
use mathlib.Core.Path.{◌≡◌, refl, ◌∙◌}
use mathlib.Core.Bool.{Bool, true, false, ◌||◌}
use mathlib.Core.Logic.{inl, inr}
use mathlib.Core.List.{List, [], ◌∷◌}
use native.Mathlib.Omega.{arith}
use server_central.Prelude.Tests.{ltb, if◌then◌else◌, Bool-cases, ◌===◌}
use server_central.Prelude.Lists.{includes, All}

-- A code point above 0xFFFF is a pair of surrogates.
units : String → List ℕ
units String.[] = []
units (String.◌∷◌ c s) =
    let rest = units s in
    if ltb (code c) 0x10000
    then code c ∷ rest
    else (0xd800 + (code c - 0x10000) / 0x400) ∷ (0xdc00 + (code c - 0x10000) % 0x400) ∷ rest

precedes : List ℕ → List ℕ → Bool
precedes [] [] = false
precedes [] (y ∷ ys) = true
precedes (x ∷ xs) [] = false
precedes (x ∷ xs) (y ∷ ys) = if ltb x y then true else if ltb y x then false else precedes xs ys

insert_text : String → List String → List String
unfolding units precedes
insert_text s [] = s ∷ []
insert_text s (t ∷ ts) =
    let rest = insert_text s ts in if precedes (units t) (units s) then t ∷ rest else s ∷ t ∷ ts

unfoldable pub sort : List String → List String
unfolding insert_text
sort [] = []
sort (s ∷ ts) = insert_text s (sort ts)

includes-insert_text :
    (s : String) (ts : List String) (a : String)
    → includes (insert_text s ts) a ≡ (s === a || includes ts a)
unfolding insert_text includes
includes-insert_text s [] a = refl
includes-insert_text s (t ∷ ts) a = elim (Bool-cases (precedes (units t) (units s))) [
  | inl e ↦ rw e (ground (arith, includes-insert_text s ts a))
  | inr e ↦ rw e refl
]

-- Sorting keeps what is in the list.
pub includes-sort : (ts : List String) (a : String) → includes (sort ts) a ≡ includes ts a
unfolding sort includes
includes-sort [] a = refl
includes-sort (s ∷ ts) a = includes-insert_text s (sort ts) a ∙ rw (includes-sort ts a) refl

All-insert_text {κ} :
    (P : String → Type κ) (s : String) (ts : List String)
    → P s
    → All P ts
    → All P (insert_text s ts)
unfolding insert_text
All-insert_text P s [] p h = (p, tt)
All-insert_text P s (t ∷ ts) p (h, hs) = elim (Bool-cases (precedes (units t) (units s))) [
  | inl e ↦ rw e (h, All-insert_text P s ts p hs)
  | inr e ↦ rw e (p, (h, hs))
]

pub All-sort {κ} : (P : String → Type κ) (ts : List String) → All P ts → All P (sort ts)
unfolding sort
All-sort P [] h = tt
All-sort P (s ∷ ts) (h, hs) = All-insert_text P s (sort ts) h (All-sort P ts hs)
