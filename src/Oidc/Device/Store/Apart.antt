-- ===== src/Oidc/Device/Store/Apart.antt =====
-- The live user codes stay far apart, whatever is called on the store.
use server_central.Prelude.{
  ℕ, suc, String, Bool, true, false, not, ◌&&◌, ◌||◌, List, [], ◌∷◌, ◌++◌, none, some, ◌≡◌, refl,
  subst, ◌⊎◌, inl, inr, arith, ◌===◌, every, filter, All, All-append, and-eq-true, All-filter,
  Bool-cases,
}
use server_central.Prelude.Dict.{get, put, values, keep, All-remove, remove}
use server_central.Oidc.Device.Code.{differs_enough, draw_code, user_code_length}
use server_central.Oidc.Device.Store.{
  DeviceRequest, DeviceStore, is_pending, pending_of, generate_user_code,
}

-- Two live codes, the older first.
abbrev pub far_pair : DeviceRequest → DeviceRequest → Bool
far_pair r e =
    not (is_pending r.status && is_pending e.status) || differs_enough e.user_code r.user_code

abbrev pub FarFrom : DeviceRequest → DeviceStore → Type 0
FarFrom r m = All (λ e. far_pair r e.1 ≡ true) m

-- Any two pending requests of the store have codes that differ enough.
abbrev pub IsApart : DeviceStore → Type 0
IsApart [] = Unit
IsApart ((k, r) ∷ m) = FarFrom r m × IsApart m

pub keep-IsApart :
    (p : String → DeviceRequest → Bool) (m : DeviceStore) → IsApart m → IsApart (keep p m)
unfolding filter
keep-IsApart p [] h = h
keep-IsApart p ((k, r) ∷ m) (h, t) = elim (Bool-cases (p k r)) [
  | inl e ↦ rw e (All-filter (λ x. far_pair r x.1 ≡ true) (λ x. p x.0 x.1) m h, keep-IsApart p m t)
  | inr e ↦ rw e (keep-IsApart p m t)
]

pub remove-IsApart : (m : DeviceStore) (k : String) → IsApart m → IsApart (remove m k)
unfolding remove
remove-IsApart [] k h = h
remove-IsApart ((j, r) ∷ m) k (h, t) = elim (Bool-cases (j === k)) [
  | inl e ↦ rw e (remove-IsApart m k t)
  | inr e ↦ rw e (All-remove (λ i x. far_pair r x ≡ true) m k h, remove-IsApart m k t)
]

-- A request after an answer or a poll: no more pending than before, under the same code.
pub record IsLater (r r' : DeviceRequest) : Type 0 where
  pub code : r'.user_code ≡ r.user_code
  pub answered : (is_pending r'.status ≡ is_pending r.status) ⊎ (is_pending r'.status ≡ false)

far_pair_later :
    (r r' e : DeviceRequest) → IsLater r r' → far_pair r e ≡ true → far_pair r' e ≡ true
far_pair_later r r' e l h = rw l.code (ground (arith, l.answered))

pair_far_later :
    (r r' e : DeviceRequest) → IsLater r r' → far_pair e r ≡ true → far_pair e r' ≡ true
pair_far_later r r' e l h = rw l.code (ground (arith, l.answered))

All-far : (r r' : DeviceRequest) (m : DeviceStore) → IsLater r r' → FarFrom r m → FarFrom r' m
All-far r r' [] l h = tt
All-far r r' ((k, e) ∷ m) l (h, t) = (far_pair_later r r' e l h, All-far r r' m l t)

put-FarFrom :
    (x r r' : DeviceRequest) (m : DeviceStore) (k : String)
    → get m k ≡ some r
    → IsLater r r'
    → FarFrom x m
    → FarFrom x (put m k r')
unfolding get put
put-FarFrom x r r' [] k g l h = cc
put-FarFrom x r r' ((j, e) ∷ m) k g l (h, t) = elim (Bool-cases (j === k)) [
  | inl same ↦
      let at : e ≡ r = some_inj (rw same at g) in
      rw same (pair_far_later r r' x l (subst (λ z. far_pair x z ≡ true) at h), t)
  | inr other ↦ rw other (h, put-FarFrom x r r' m k (rw other at g) l t)
]
  where
    some_inj : {a b : DeviceRequest} → some a ≡ some b → a ≡ b
    some_inj q = cc

pub put-IsApart :
    (r r' : DeviceRequest) (m : DeviceStore) (k : String)
    → get m k ≡ some r
    → IsLater r r'
    → IsApart m
    → IsApart (put m k r')
unfolding get put
put-IsApart r r' [] k g l h = cc
put-IsApart r r' ((j, e) ∷ m) k g l (h, t) = elim (Bool-cases (j === k)) [
  | inl same ↦
      let at : e ≡ r = some_inj (rw same at g) in
      rw same (All-far r r' m l (subst (λ z. FarFrom z m) at h), t)
  | inr other ↦
      rw other
        (put-FarFrom e r r' m k (rw other at g) l h, put-IsApart r r' m k (rw other at g) l t)
]
  where
    some_inj : {a b : DeviceRequest} → some a ≡ some b → a ≡ b
    some_inj q = cc

pub put_new :
    (m : DeviceStore) (k : String) (r : DeviceRequest)
    → get m k ≡ none
    → put m k r ≡ m ++ (k, r) ∷ []
unfolding get put
put_new [] k r g = refl
put_new ((j, e) ∷ m) k r g = ground (arith, put_new m k r)

-- A code that was accepted differs enough from every pending one.
pub generated_apart :
    (draws : ℕ → ℕ → ℕ) (n : ℕ) (waiting : List DeviceRequest) (code : String)
    → generate_user_code draws n waiting ≡ some code
    → every (λ r. differs_enough code r.user_code) waiting ≡ true
unfolding generate_user_code
generated_apart draws (suc n) waiting code e =
    let drawn = draw_code (draws 0) user_code_length "" in
    elim (Bool-cases (every (λ r. differs_enough drawn r.user_code) waiting)) [
      | inl t ↦
          subst (λ c. every (λ r. differs_enough c r.user_code) waiting ≡ true) (ground arith) t
      | inr f ↦ generated_apart (λ i. draws (suc i)) n waiting code (ground arith)
    ]
generated_apart draws _ waiting code e = cc

pub append-IsApart :
    (m : DeviceStore) (k : String) (r : DeviceRequest)
    → IsApart m
    → is_pending r.status ≡ true
    → every (λ x. differs_enough r.user_code x.user_code) (pending_of m) ≡ true
    → IsApart (m ++ (k, r) ∷ [])
unfolding pending_of filter every values
append-IsApart [] k r h p e = (tt, tt)
append-IsApart ((j, x) ∷ m) k r (h, t) p e = elim (Bool-cases (is_pending x.status)) [
  | inl w ↦
      let both = and-eq-true (rw (w, pending_of, values, filter, every) at e) in
      let d : differs_enough r.user_code x.user_code ≡ true = both.0 in
      (
        All-append (λ y. far_pair x y.1 ≡ true) m ((k, r) ∷ []) h (ground arith, tt),
        append-IsApart m k r t p both.1,
      )
  | inr w ↦ (
    All-append (λ y. far_pair x y.1 ≡ true) m ((k, r) ∷ []) h (ground arith, tt),
    append-IsApart m k r t p (rw (w, pending_of, values, filter, every) at e),
  )
]
