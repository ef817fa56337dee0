-- ===== src/Oidc/Device/Store/Mistyped.antt =====
-- A mistyped code meets nobody else's request.
use server_central.Prelude.{
  ℕ, String, Bool, true, false, [], ◌∷◌, none, some, ◌≡◌, sym, ap, subst, ◌∙◌, ◌≢◌, ◌⊎◌, inl, inr,
  arith, ◌===◌, find, All-find, Bool-cases, Option-cases,
}
use server_central.Prelude.Dict.{get, All-get}
use server_central.Oidc.Device.Code.{differs_enough, normalize_user_code}
use server_central.Oidc.Device.Code.Slips.{Slip, Slip-sym, Slip-close}
use server_central.Oidc.Device.Store.{DeviceRequest, DeviceStore, is_pending, prune, find_pending}
use server_central.Oidc.Device.Store.Sound.{
  prune-IsDistinct, find_pending-IsFound, Reach, Reach-IsDistinct,
}
use server_central.Oidc.Device.Store.Apart.{IsApart, far_pair}

-- Of two requests in an apart store, one looked up and one searched for, the codes differ enough one
-- way round, or they are one request.
pair_cases :
    (p : String × DeviceRequest → Bool) (m : DeviceStore) (k k' : String) (r r' : DeviceRequest)
    → IsApart m
    → get m k ≡ some r
    → find p m ≡ some (k', r')
    → (far_pair r r' ≡ true) ⊎ ((far_pair r' r ≡ true) ⊎ (r ≡ r'))
unfolding get find
pair_cases p [] k k' r r' h g e = cc
pair_cases p ((j, x) ∷ m) k k' r r' (h, t) g e = elim (Bool-cases (j === k)) [
  | inl same ↦ elim (Bool-cases (p (j, x))) [
    | inl hit ↦ inr (inr (ground arith))
    | inr miss ↦
        let at : x ≡ r = ground arith in
        inl (
          subst (λ z. far_pair z r' ≡ true) at
            (All-find (λ y. far_pair x y.1 ≡ true) p m (k', r') h (rw miss at e)))
  ]
  | inr other ↦ elim (Bool-cases (p (j, x))) [
    | inl hit ↦
        let at : x ≡ r' = ground arith in
        inr (
          inl (
            subst (λ z. far_pair z r ≡ true) at
              (All-get (λ i y. far_pair x y ≡ true) m k r h (rw other at g))))
    | inr miss ↦ pair_cases p m k k' r r' t (rw other at g) (rw miss at e)
  ]
]

close_pair :
    (r r' : DeviceRequest)
    → is_pending r.status ≡ true
    → is_pending r'.status ≡ true
    → differs_enough r'.user_code r.user_code ≡ false
    → far_pair r r' ≡ false
close_pair r r' w w' c = ground arith

-- A mistyped code meets nobody else's request: in a reachable store, what a person types who slips
-- once on the code of a pending request that is not past its expiry, a wrong key or two neighbours
-- swapped, finds nothing at all.
pub find_pending-mistyped :
    (upper : String → String) {s : DeviceStore} (typed k : String) (now : ℕ) (r : DeviceRequest)
    → Reach upper s
    → get (prune now s) k ≡ some r
    → is_pending r.status ≡ true
    → Slip r.user_code (normalize_user_code upper typed)
    → r.user_code ≢ normalize_user_code upper typed
    → (find_pending upper typed now s).0 ≡ none
find_pending-mistyped upper {s} typed k now r reach g w slip ne =
    elim (Option-cases (find_pending upper typed now s).0) [
      | inl e ↦ e
      | inr ((k', r'), e) ↦
          let f = find_pending-IsFound upper typed now s k' r' e in
          let sound = prune-IsDistinct now s (Reach-IsDistinct upper reach) in
          let slip' : Slip r.user_code r'.user_code =
            subst (λ z. Slip r.user_code z) (sym f.code) slip in
          elim (pair_cases _ (prune now s) k k' r r' sound.apart g f.entry) [
            | inl a ↦ cc (a, close_pair r r' w f.waits (Slip-close (Slip-sym slip')))
            | inr (inl a) ↦ cc (a, close_pair r' r f.waits w (Slip-close slip'))
            | inr (inr q) ↦ absurd (ne (ap (λ (z : DeviceRequest). z.user_code) q ∙ f.code))
          ]
    ]
