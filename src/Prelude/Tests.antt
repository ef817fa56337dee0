-- ===== src/Prelude/Tests.antt =====
-- Boolean tests on the native numbers and on texts, the conditional, and results that may be errors.
use Prim.Native.Nat.{ℕ, ◌≤◌, ◌<◌, compare, Ordering}
use Prim.Native.String.{String}
use mathlib.Core.Path.{◌≡◌, refl, subst}
use mathlib.Core.Logic.{◌⊎◌, inl, inr}
use mathlib.Core.Bool.{Bool, true, false, ◌&&◌, ◌||◌}
use mathlib.Core.Option.{Option, none, some}
use native.Mathlib.Omega.{arith}
use text.Mathlib.Text.{◌==◌ as str_eq}

abbrev pub ltb : ℕ → ℕ → Bool
ltb a b = elim (compare a b) [ Ordering.lt ↦ true | _ ↦ false ]

abbrev pub leb : ℕ → ℕ → Bool
leb a b = elim (compare a b) [ Ordering.gt ↦ false | _ ↦ true ]

infix 50 ◌==◌
abbrev pub ◌==◌ : ℕ → ℕ → Bool
a == b = elim (compare a b) [ Ordering.eq ↦ true | _ ↦ false ]

-- `===` between two texts.
infix 50 ◌===◌
abbrev pub ◌===◌ : String → String → Bool
s === t = str_eq s t

infix 1 if◌then◌else◌
abbrev pub if◌then◌else◌ {ℓ} : {A : Type ℓ} → Bool → A → A → A
if true then x else y = x
if false then x else y = y

-- `===` between two values of which each is a text or null.
abbrev pub same_option : Option String → Option String → Bool
same_option none none = true
same_option (some a) (some b) = a === b
same_option _ _ = false

abbrev pub is_some {ℓ} : {A : Type ℓ} → Option A → Bool
is_some none = false
is_some (some a) = true

-- `o ?? d`
abbrev pub or_else {ℓ} : {A : Type ℓ} → Option A → A → A
or_else none d = d
or_else (some a) d = a

pub Bool-cases : (b : Bool) → (b ≡ true) ⊎ (b ≡ false)
Bool-cases true = inl refl
Bool-cases false = inr refl

pub Option-cases {ℓ} : {A : Type ℓ} (o : Option A) → (o ≡ none) ⊎ ((a : A) × (o ≡ some a))
Option-cases none = inl refl
Option-cases (some a) = inr (a, refl)

pub and-eq-true : {a b : Bool} → (a && b) ≡ true → (a ≡ true) × (b ≡ true)
and-eq-true {a} {b} h = ground arith

pub or-eq-true : {a b : Bool} → (a || b) ≡ true → (a ≡ true) ⊎ (b ≡ true)
or-eq-true {a} {b} h = ground arith

pub ltb→lt : (a b : ℕ) → ltb a b ≡ true → a < b
ltb→lt a b h = ground arith

pub leb→le : (a b : ℕ) → leb a b ≡ true → a ≤ b
leb→le a b h = ground arith

-- An operation that returns a value or throws.
pub data Result {ℓ} (E : Type ℓ) (A : Type ℓ) : Type ℓ where
  err : (thrown : E) → Result E A
  ok : (returned : A) → Result E A

-- What follows is skipped once something is thrown.
infixl 5 ◌>>=◌
abbrev pub ◌>>=◌ {ℓ} : {E A B : Type ℓ} → Result E A → (A → Result E B) → Result E B
err thrown >>= next = err thrown
ok returned >>= next = next returned

infixl 5 ◌>>◌
abbrev pub ◌>>◌ {ℓ} : {E B : Type ℓ} → Result E (Unit {ℓ}) → Result E B → Result E B
first >> next = first >>= λ done. next

-- `if (!test) throw e`
abbrev pub ensure : {E : Type 0} → Bool → E → Result E (Unit {0})
ensure false thrown = err thrown
ensure true thrown = ok tt

-- A chain that returns has returned at each link.
module _ {E A B : Type 0} where
  pub >>=-eq-ok :
      (first : Result E A) (next : A → Result E B) {b : B}
      → (first >>= next) ≡ ok b
      → (a : A) × (first ≡ ok a) × (next a ≡ ok b)
  >>=-eq-ok (err thrown) next e = cc
  >>=-eq-ok (ok returned) next e = (returned, refl, e)

pub ensure-eq-ok : {E : Type 0} {t : Bool} (e : E) {u : Unit {0}} → ensure t e ≡ ok u → t ≡ true
ensure-eq-ok {t = true} e h = refl
ensure-eq-ok {t = false} e h = cc

-- A postcondition of an operation that may throw, its rule for a chain, and its use.
module _ {ℓ} {E A : Type ℓ} where
  abbrev pub Ensures {κ} : (A → Type κ) → Result E A → Type κ
  Ensures P (ok a) = P a
  Ensures P (err e) = Unit

  ok-injective : {x y : A} → ◌≡◌ {A = Result E A} (ok x) (ok y) → x ≡ y
  ok-injective e = cc

  pub ensured {κ} : (P : A → Type κ) (m : Result E A) {a : A} → Ensures P m → m ≡ ok a → P a
  ensured P (ok b) h e = subst P (ok-injective e) h
  ensured P (err b) h e = cc

pub Ensures-bind {ℓ κ} :
    {E A B : Type ℓ} (P : B → Type κ) (m : Result E A) (f : A → Result E B)
    → ((a : A) → m ≡ ok a → Ensures P (f a))
    → Ensures P (m >>= f)
Ensures-bind P (ok a) f h = h a refl
Ensures-bind P (err e) f h = tt

pub Ensures-ensure :
    {E B : Type 0} (P : B → Type 0) (t : Bool) (e : E) (m : Result E B)
    → (t ≡ true → Ensures P m)
    → Ensures P (ensure t e >> m)
Ensures-ensure P true e m h = h refl
Ensures-ensure P false e m h = tt
