-- ===== src/Prelude/Dict.antt =====
-- A `Map`, or a plain object used as one, keyed by texts: its entries in order of insertion.
pub mod Keyed
pub mod Injective
use Prim.Native.String.{String}
use mathlib.Core.Path.{◌≡◌, refl, sym, subst}
use mathlib.Core.Logic.{inl, inr}
use mathlib.Core.Bool.{Bool, true}
use mathlib.Core.Option.{Option, none, some}
use mathlib.Core.List.{List, [], ◌∷◌}
use native.Mathlib.Omega.{arith}
use text.Mathlib.TextEquality.{eq_iff}
use server_central.Prelude.Tests.{◌===◌, if◌then◌else◌, Bool-cases}
use server_central.Prelude.Lists.{All, filter}

abbrev pub Dict {ℓ} : Type ℓ → Type ℓ
Dict V = List (String × V)

module _ {ℓ} {V : Type ℓ} where
  -- `m.get(k)`, `o[k]`
  unfoldable pub get : Dict V → String → Option V
  get [] k = none
  get ((j, v) ∷ m) k = if j === k then some v else get m k

  -- `m.set(k, v)`, `o[k] = v`: a key that is there keeps its place.
  unfoldable pub put : Dict V → String → V → Dict V
  put [] k v = (k, v) ∷ []
  put ((j, w) ∷ m) k v = if j === k then (j, v) ∷ m else (j, w) ∷ put m k v

  -- `m.delete(k)`, `delete o[k]`
  unfoldable pub remove : Dict V → String → Dict V
  remove [] k = []
  remove ((j, w) ∷ m) k = let rest = remove m k in if j === k then rest else (j, w) ∷ rest

  -- `[...m.values()]`, `Object.values(o)`
  unfoldable pub values : Dict V → List V
  values [] = []
  values ((k, v) ∷ m) = v ∷ values m

  -- What is left when each entry that fails the test is deleted.
  abbrev pub keep : (String → V → Bool) → Dict V → Dict V
  keep p m = filter (λ e. p e.0 e.1) m

  -- Each value changed in place.
  unfoldable pub update_all : (V → V) → Dict V → Dict V
  update_all f [] = []
  update_all f ((k, v) ∷ m) = (k, f v) ∷ update_all f m

  pub get-put :
      (m : Dict V) (k j : String) (v : V)
      → get (put m k v) j ≡ (if k === j then some v else get m j)
  unfolding get put
  get-put [] k j v = refl
  get-put ((i, w) ∷ m) k j v = ground (arith, eq_iff k j, eq_iff i k, eq_iff i j, get-put m k j v)

  pub get-remove :
      (m : Dict V) (k j : String) → get (remove m k) j ≡ (if k === j then none else get m j)
  unfolding get remove
  get-remove [] k j = ground arith
  get-remove ((i, w) ∷ m) k j = ground (arith, eq_iff k j, eq_iff i k, eq_iff i j, get-remove m k j)

  -- What holds of every entry holds of what a lookup finds.
  pub All-get {κ} :
      (P : String → V → Type κ) (m : Dict V) (k : String) (v : V)
      → All (λ e. P e.0 e.1) m
      → get m k ≡ some v
      → P k v
  unfolding get
  All-get P [] k v h e = cc
  All-get P ((j, w) ∷ m) k v (h, t) e = elim (Bool-cases (j === k)) [
    | inl same ↦ rw (← (eq_iff j k).0 same, ← some_inj (rw same at e)) h
    | inr other ↦ All-get P m k v t (rw other at e)
  ]
    where
      some_inj : {a b : V} → some a ≡ some b → a ≡ b
      some_inj h = cc

  -- An entry that passes the test is still found.
  pub get-keep :
      (p : String → V → Bool) (m : Dict V) (k : String) (v : V)
      → get m k ≡ some v
      → p k v ≡ true
      → get (keep p m) k ≡ some v
  unfolding get filter
  get-keep p [] k v e h = cc
  get-keep p ((j, w) ∷ m) k v e h = ground (arith, eq_iff j k, get-keep p m k v)

  pub All-put {κ} :
      (P : String → V → Type κ) (m : Dict V) (k : String) (v : V)
      → All (λ e. P e.0 e.1) m
      → P k v
      → All (λ e. P e.0 e.1) (put m k v)
  unfolding put
  All-put P [] k v h p = (p, tt)
  All-put P ((j, w) ∷ m) k v (h, t) p = elim (Bool-cases (j === k)) [
    | inl same ↦ rw same (subst (λ i. P i v) (sym ((eq_iff j k).0 same)) p, t)
    | inr other ↦ rw other (h, All-put P m k v t p)
  ]

  pub All-remove {κ} :
      (P : String → V → Type κ) (m : Dict V) (k : String)
      → All (λ e. P e.0 e.1) m
      → All (λ e. P e.0 e.1) (remove m k)
  unfolding remove
  All-remove P [] k h = h
  All-remove P ((j, w) ∷ m) k (h, t) = elim (Bool-cases (j === k)) [
    | inl same ↦ rw same (All-remove P m k t)
    | inr other ↦ rw other (h, All-remove P m k t)
  ]

  pub All-values {κ} : (P : V → Type κ) (m : Dict V) → All (λ e. P e.1) m → All P (values m)
  unfolding values
  All-values P [] h = h
  All-values P ((j, w) ∷ m) (h, t) = (h, All-values P m t)
