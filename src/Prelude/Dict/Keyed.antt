-- ===== src/Prelude/Dict/Keyed.antt =====
-- A dictionary has one entry for each key.
use Prim.Native.String.{String}
use mathlib.Core.Path.{◌≡◌, refl}
use mathlib.Core.Logic.{inl, inr}
use mathlib.Core.Bool.{Bool}
use mathlib.Core.Option.{none, some}
use mathlib.Core.List.{[], ◌∷◌}
use native.Mathlib.Omega.{arith}
use text.Mathlib.TextEquality.{eq_iff}
use server_central.Prelude.Tests.{◌===◌, Bool-cases}
use server_central.Prelude.Lists.{filter, find}
use server_central.Prelude.Dict.{Dict, get, put, remove, keep, get-put, get-remove}

module _ {ℓ} {V : Type ℓ} where
  abbrev pub IsKeyed : Dict V → Type ℓ
  IsKeyed [] = Unit
  IsKeyed ((k, v) ∷ m) = (get m k ≡ none) × IsKeyed m

  pub put-IsKeyed : (m : Dict V) (k : String) (v : V) → IsKeyed m → IsKeyed (put m k v)
  unfolding put get
  put-IsKeyed [] k v h = (refl, tt)
  put-IsKeyed ((j, w) ∷ m) k v (h, t) = elim (Bool-cases (j === k)) [
    | inl same ↦ rw same (h, t)
    | inr other ↦
        rw other
          (ground (arith, get-put m k j v, eq_iff k j, eq_iff j k, flip), put-IsKeyed m k v t)
  ]
    where
      flip : k ≡ j → j ≡ k
      flip e = cc

  pub get-keep-none :
      (p : String → V → Bool) (m : Dict V) (k : String) → get m k ≡ none → get (keep p m) k ≡ none
  unfolding get filter
  get-keep-none p [] k h = refl
  get-keep-none p ((j, w) ∷ m) k h = ground (arith, get-keep-none p m k)

  pub keep-IsKeyed : (p : String → V → Bool) (m : Dict V) → IsKeyed m → IsKeyed (keep p m)
  unfolding filter
  keep-IsKeyed p [] h = h
  keep-IsKeyed p ((j, w) ∷ m) (h, t) = elim (Bool-cases (p j w)) [
    | inl e ↦ rw e (get-keep-none p m j h, keep-IsKeyed p m t)
    | inr e ↦ rw e (keep-IsKeyed p m t)
  ]

  pub remove-IsKeyed : (m : Dict V) (k : String) → IsKeyed m → IsKeyed (remove m k)
  unfolding remove
  remove-IsKeyed [] k h = h
  remove-IsKeyed ((j, w) ∷ m) k (h, t) = elim (Bool-cases (j === k)) [
    | inl e ↦ rw e (remove-IsKeyed m k t)
    | inr e ↦ rw e (ground (arith, get-remove m k j), remove-IsKeyed m k t)
  ]

  -- The entry that a search finds is the one that its key looks up.
  pub get-find :
      (p : String × V → Bool) (m : Dict V) (k : String) (v : V)
      → IsKeyed m
      → find p m ≡ some (k, v)
      → get m k ≡ some v
  unfolding find get
  get-find p [] k v h e = cc
  get-find p ((j, w) ∷ m) k v (h, t) e = elim (Bool-cases (p (j, w))) [
    | inl hit ↦ ground (arith, eq_iff j k)
    | inr miss ↦ let g = get-find p m k v t (rw miss at e) in ground (arith, eq_iff j k, at_key)
  ]
    where
      at_key : j ≡ k → get m j ≡ get m k
      at_key e = rw e

  -- A key that survives a deletion had its value before.
  pub get-keep_inv :
      (p : String → V → Bool) (m : Dict V) (k : String) (v : V)
      → IsKeyed m
      → get (keep p m) k ≡ some v
      → get m k ≡ some v
  unfolding filter get
  get-keep_inv p [] k v h e = cc
  get-keep_inv p ((j, w) ∷ m) k v (h, t) e = elim (Bool-cases (p j w)) [
    | inl stays ↦ ground (arith, get-keep_inv p m k v t)
    | inr goes ↦ let g = get-keep_inv p m k v t (rw goes at e) in ground (arith, eq_iff j k, at_key)
  ]
    where
      at_key : j ≡ k → get m j ≡ get m k
      at_key e = rw e
