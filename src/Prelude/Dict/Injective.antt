-- ===== src/Prelude/Dict/Injective.antt =====
-- What entries of a dictionary may not share: a field that is different under different keys.
use Prim.Native.String.{String}
use mathlib.Core.Path.{◌≡◌, sym, ◌∙◌}
use mathlib.Core.Logic.{inl, inr}
use mathlib.Core.Bool.{Bool, false}
use mathlib.Core.Option.{Option, some}
use mathlib.Core.List.{[], ◌∷◌}
use native.Mathlib.Omega.{arith}
use text.Mathlib.TextEquality.{eq_iff}
use server_central.Prelude.Tests.{◌===◌, Bool-cases}
use server_central.Prelude.Lists.{any, find}
use server_central.Prelude.Dict.{Dict, get, put, remove, values, get-put, get-remove}
use server_central.Prelude.Dict.Keyed.{IsKeyed}

some_inj : {A : Type 0} {a b : A} → ◌≡◌ {A = Option A} (some a) (some b) → a ≡ b
some_inj h = cc

module _ {V : Type 0} where
  -- No value of the field stands under two keys.
  abbrev pub IsInjective : (V → Option String) → Dict V → Type 0
  IsInjective f m =
      (k j : String) (v w : V) (x : String)
      → get m k ≡ some v
      → get m j ≡ some w
      → f v ≡ some x
      → f w ≡ some x
      → k ≡ j

  pub put-IsInjective :
      (f : V → Option String) (m : Dict V) (key : String) (new : V)
      → ((j : String) (w : V) (x : String)
          → get m j ≡ some w
          → f w ≡ some x
          → f new ≡ some x
          → key ≡ j)
      → IsInjective f m
      → IsInjective f (put m key new)
  put-IsInjective f m key new fresh h k j v w x gk gj fv fw = elim (Bool-cases (key === k)) [
    | inl ek ↦ elim (Bool-cases (key === j)) [
      | inl ej ↦ sym ((eq_iff key k).0 ek) ∙ (eq_iff key j).0 ej
      | inr nj ↦
          let same = some_inj (rw (get-put m key k new, ek) at gk) in
          sym ((eq_iff key k).0 ek)
          ∙ fresh j w x (rw (get-put m key j new, nj) at gj) fw (rw (same) fv)
    ]
    | inr nk ↦ elim (Bool-cases (key === j)) [
      | inl ej ↦
          let same = some_inj (rw (get-put m key j new, ej) at gj) in
          sym (fresh k v x (rw (get-put m key k new, nk) at gk) fv (rw (same) fw))
          ∙ (eq_iff key j).0 ej
      | inr nj ↦
          h k j v w x (rw (get-put m key k new, nk) at gk) (rw (get-put m key j new, nj) at gj) fv
            fw
    ]
  ]

  pub remove-IsInjective :
      (f : V → Option String) (m : Dict V) (key : String)
      → IsInjective f m
      → IsInjective f (remove m key)
  remove-IsInjective f m key h k j v w x gk gj fv fw = h k j v w x (left k v gk) (left j w gj) fv fw
    where
      left : (i : String) (u : V) → get (remove m key) i ≡ some u → get m i ≡ some u
      left i u g = ground (arith, get-remove m key i)

  -- What no value passes the value of no key passes.
  pub any-values-get :
      (p : V → Bool) (m : Dict V) (k : String) (v : V)
      → any p (values m) ≡ false
      → get m k ≡ some v
      → p v ≡ false
  unfolding any values get
  any-values-get p [] k v h g = cc
  any-values-get p ((j, w) ∷ m) k v h g = elim (Bool-cases (j === k)) [
    | inl same ↦ rw (← some_inj (rw same at g)) (ground arith)
    | inr other ↦ any-values-get p m k v (ground arith) (rw other at g)
  ]

  -- A value that a search finds stands under some key.
  pub get-find-values :
      (p : V → Bool) (m : Dict V) (v : V)
      → IsKeyed m
      → find p (values m) ≡ some v
      → (k : String) × (get m k ≡ some v)
  unfolding find values get
  get-find-values p [] v h e = cc
  get-find-values p ((j, w) ∷ m) v (h, t) e = elim (Bool-cases (p w)) [
    | inl hit ↦ (j, ground (arith, eq_iff j j))
    | inr miss ↦
        let (k, g) = get-find-values p m v t (rw miss at e) in
        (k, ground (arith, eq_iff j k, at_key k))
  ]
    where
      at_key : (k : String) → j ≡ k → get m j ≡ get m k
      at_key k e = rw e
