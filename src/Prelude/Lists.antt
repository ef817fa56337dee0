-- ===== src/Prelude/Lists.antt =====
-- Lists: `includes`, `some`, `every`, `filter`, and predicates over their items.
use Prim.Native.Nat.{ℕ, suc, ◌+◌, ◌≤◌}
use Prim.Native.String.{String}
use mathlib.Core.Path.{◌≡◌, refl, subst}
use mathlib.Core.Logic.{inl, inr}
use mathlib.Core.Bool.{Bool, true, false, not, ◌&&◌, ◌||◌}
use mathlib.Core.Option.{Option, none, some}
use mathlib.Core.List.{List, [], ◌∷◌, ◌++◌}
use native.Mathlib.Omega.{arith}
use text.Mathlib.TextEquality.{eq_iff}
use server_central.Prelude.Tests.{◌===◌, if◌then◌else◌, Bool-cases}

module _ {ℓ} {A : Type ℓ} where
  abbrev pub length : List A → ℕ
  length [] = 0
  length (x ∷ xs) = suc (length xs)

  -- `xs.some(p)`
  unfoldable pub any : (A → Bool) → List A → Bool
  any p [] = false
  any p (x ∷ xs) = p x || any p xs

  -- `xs.every(p)`
  unfoldable pub every : (A → Bool) → List A → Bool
  every p [] = true
  every p (x ∷ xs) = p x && every p xs

  -- `xs.filter(p)`
  unfoldable pub filter : (A → Bool) → List A → List A
  filter p [] = []
  filter p (x ∷ xs) = let rest = filter p xs in if p x then x ∷ rest else rest

  -- `xs.find(p) ?? null`
  unfoldable pub find : (A → Bool) → List A → Option A
  find p [] = none
  find p (x ∷ xs) = if p x then some x else find p xs

  abbrev pub All {κ} : (A → Type κ) → List A → Type κ
  All P [] = Unit
  All P (x ∷ xs) = P x × All P xs

  pub All-filter {κ} :
      (P : A → Type κ) (p : A → Bool) (xs : List A) → All P xs → All P (filter p xs)
  unfolding filter
  All-filter P p [] h = h
  All-filter P p (x ∷ xs) (h, k) = elim (Bool-cases (p x)) [
    | inl e ↦ rw e (h, All-filter P p xs k)
    | inr e ↦ rw e (All-filter P p xs k)
  ]

  pub filter-All : (p : A → Bool) (xs : List A) → All (λ x. p x ≡ true) (filter p xs)
  unfolding filter
  filter-All p [] = tt
  filter-All p (x ∷ xs) = elim (Bool-cases (p x)) [
    | inl e ↦ rw e (e, filter-All p xs)
    | inr e ↦ rw e (filter-All p xs)
  ]

  pub length-filter-le : (p : A → Bool) (xs : List A) → length (filter p xs) ≤ length xs
  unfolding filter
  length-filter-le p [] = omega arith
  length-filter-le p (x ∷ xs) = ground (arith, length-filter-le p xs)

  pub All-append {κ} : (P : A → Type κ) (xs ys : List A) → All P xs → All P ys → All P (xs ++ ys)
  All-append P [] ys h k = k
  All-append P (x ∷ xs) ys (h, h') k = (h, All-append P xs ys h' k)

  pub length-append : (xs ys : List A) → length (xs ++ ys) ≡ length xs + length ys
  length-append [] ys = omega arith
  length-append (x ∷ xs) ys = omega (arith, length-append xs ys)

-- `xs.includes(a)` on texts.
unfoldable pub includes : List String → String → Bool
includes [] a = false
includes (x ∷ xs) a = (x === a) || includes xs a

pub includes-append :
    (xs ys : List String) (a : String) → includes (xs ++ ys) a ≡ (includes xs a || includes ys a)
unfolding includes
includes-append [] ys a = refl
includes-append (x ∷ xs) ys a = ground (arith, includes-append xs ys a)

-- The loop `for (x of xs) if (!out.includes(x)) out.push(x)`.
unfoldable pub push_new : List String → List String → List String
unfolding includes
push_new out [] = out
push_new out (x ∷ xs) = push_new (if includes out x then out else out ++ x ∷ []) xs

-- No text stands in the list twice.
abbrev pub IsNodup : List String → Type 0
IsNodup [] = Unit
IsNodup (x ∷ xs) = (includes xs x ≡ false) × IsNodup xs

-- What a test finds of every item it finds of any item that is there.
pub every-of_includes :
    (p : String → Bool) (xs : List String) (a : String)
    → every p xs ≡ true
    → includes xs a ≡ true
    → p a ≡ true
unfolding every includes
every-of_includes p [] a e i = cc
every-of_includes p (x ∷ xs) a e i = elim (Bool-cases (x === a)) [
  | inl s ↦ let q : p x ≡ true = ground arith in rw ((eq_iff x a).0 s) at q
  | inr s ↦ every-of_includes p xs a (ground arith) (ground arith)
]

includes-concat :
    (xs : List String) (x a : String) → includes (xs ++ x ∷ []) a ≡ (includes xs a || x === a)
unfolding includes
includes-concat [] x a = ground arith
includes-concat (y ∷ xs) x a = ground (arith, includes-concat xs x a)

pub includes-push_new :
    (out xs : List String) (a : String)
    → includes (push_new out xs) a ≡ (includes out a || includes xs a)
unfolding push_new includes
includes-push_new out [] a = ground arith
includes-push_new out (x ∷ xs) a = elim (Bool-cases (includes out x)) [
  | inl old ↦ rw old (ground (arith, includes-push_new out xs a, eq_iff x a, old_at a))
  | inr new ↦
      rw new (ground (arith, includes-push_new (out ++ x ∷ []) xs a, includes-concat out x a))
]
  where
    old_at : (b : String) → x ≡ b → includes out b ≡ includes out x
    old_at b e = rw e

IsNodup-concat :
    (xs : List String) (x : String) → IsNodup xs → includes xs x ≡ false → IsNodup (xs ++ x ∷ [])
unfolding includes
IsNodup-concat [] x n f = (refl, tt)
IsNodup-concat (y ∷ xs) x (h, n) f = (
  ground (arith, includes-concat xs x y, eq_iff x y, eq_iff y x, eq_comm),
  IsNodup-concat xs x n (ground arith),
)
  where
    eq_comm : x ≡ y → y ≡ x
    eq_comm e = cc

pub push_new-IsNodup : (out xs : List String) → IsNodup out → IsNodup (push_new out xs)
unfolding push_new
push_new-IsNodup out [] n = n
push_new-IsNodup out (x ∷ xs) n = elim (Bool-cases (includes out x)) [
  | inl old ↦ rw old (push_new-IsNodup out xs n)
  | inr new ↦ rw new (push_new-IsNodup (out ++ x ∷ []) xs (IsNodup-concat out x n new))
]

-- The test of `IsNodup`.
unfoldable pub is_nodup : List String → Bool
unfolding includes
is_nodup [] = true
is_nodup (x ∷ xs) = not (includes xs x) && is_nodup xs

pub IsNodup-of_test : (xs : List String) → is_nodup xs ≡ true → IsNodup xs
unfolding is_nodup
IsNodup-of_test [] h = tt
IsNodup-of_test (x ∷ xs) h = (ground arith, IsNodup-of_test xs (ground arith))

module _ {ℓ} {A : Type ℓ} where
  pub All-of_every : (p : A → Bool) (xs : List A) → every p xs ≡ true → All (λ x. p x ≡ true) xs
  unfolding every
  All-of_every p [] h = tt
  All-of_every p (x ∷ xs) h = (ground arith, All-of_every p xs (ground arith))

  pub every_of_All : (p : A → Bool) (xs : List A) → All (λ x. p x ≡ true) xs → every p xs ≡ true
  unfolding every
  every_of_All p [] h = refl
  every_of_All p (x ∷ xs) (h, k) = ground (arith, every_of_All p xs k)

  pub All-find {κ} :
      (P : A → Type κ) (p : A → Bool) (xs : List A) (x : A) → All P xs → find p xs ≡ some x → P x
  unfolding find
  All-find P p [] x h e = cc
  All-find P p (y ∷ ys) x (h, k) e = elim (Bool-cases (p y)) [
    | inl t ↦ subst P (ground arith) h
    | inr f ↦ All-find P p ys x k (rw f at e)
  ]

  pub find-test : (p : A → Bool) (xs : List A) (x : A) → find p xs ≡ some x → p x ≡ true
  unfolding find
  find-test p [] x e = cc
  find-test p (y ∷ ys) x e = elim (Bool-cases (p y)) [
    | inl t ↦ subst (λ z. p z ≡ true) (ground arith) t
    | inr f ↦ find-test p ys x (rw f at e)
  ]

  -- A filter that drops nothing.
  pub filter_none :
      (p : A → Bool) (xs : List A) → any p xs ≡ false → filter (λ x. not (p x)) xs ≡ xs
  unfolding any filter
  filter_none p [] h = refl
  filter_none p (x ∷ xs) h = ground (arith, filter_none p xs)

  pub any-filter-not : (p : A → Bool) (xs : List A) → any p (filter (λ x. not (p x)) xs) ≡ false
  unfolding any filter
  any-filter-not p [] = refl
  any-filter-not p (x ∷ xs) = ground (arith, any-filter-not p xs)
