-- ===== src/Oidc/Device/Store/Caps.antt =====
-- The caps on pending requests, in all and from one address.
use server_central.Prelude.{
  ℕ, ◌+◌, ◌≤◌, String, Bool, true, false, List, [], ◌∷◌, ◌++◌, Option, none, some, ok, ◌≡◌, refl,
  ◌⊎◌, inl, inr, arith, leb, length, length-append, filter, same_option, Bool-cases, Option-cases,
}
use server_central.Prelude.Dict.{get, put, values}
use server_central.Oidc.Device.Store.{
  DeviceRequest, DeviceStore, is_pending, prune, pending_of, generate_user_code, generate_attempts,
  Params, new_request, over_share, from_ip, max_pending, max_pending_per_ip, open_request, request,
}
use server_central.Oidc.Device.Store.Apart.{put_new}

pending_of-append :
    (m : DeviceStore) (k : String) (r : DeviceRequest)
    → is_pending r.status ≡ true
    → pending_of (m ++ (k, r) ∷ []) ≡ pending_of m ++ r ∷ []
unfolding pending_of values filter
pending_of-append [] k r p = rw p
pending_of-append ((j, x) ∷ m) k r p = ground (arith, pending_of-append m k r p)

filter-append_one :
    (p : DeviceRequest → Bool) (xs : List DeviceRequest) (x : DeviceRequest)
    → length (filter p (xs ++ x ∷ [])) ≤ length (filter p xs) + 1
unfolding filter
filter-append_one p [] x = ground arith
filter-append_one p (y ∷ ys) x = ground (arith, filter-append_one p ys x)

share_bound :
    (ip : Option String) (waiting : List DeviceRequest)
    → over_share ip waiting ≡ false
    → (ip ≡ none) ⊎ (length (from_ip ip waiting) + 1 ≤ max_pending_per_ip)
unfolding over_share
share_bound none waiting h = inl refl
share_bound (some a) waiting h = inr (ground arith)

-- A request that is opened under an unused device code leaves at most 64 pending in all and, if
-- its address is known, at most 8 from that address.
pub request-caps :
    (params : Params) (code : String) (draws : ℕ → ℕ → ℕ) (now : ℕ) (s : DeviceStore)
    (r : DeviceRequest)
    → get (prune now s) code ≡ none
    → (request params code draws now s).0 ≡ ok r
    → (length (pending_of (request params code draws now s).1) ≤ 64)
      × ((params.ip ≡ none)
          ⊎ (length (from_ip params.ip (pending_of (request params code draws now s).1)) ≤ 8))
unfolding request open_request
request-caps params code draws now s r g e = open_caps params code draws now (prune now s) r g e
  where
    Bounded : Params → DeviceStore → Type 0
    Bounded ps t =
        (length (pending_of t) ≤ 64)
        × ((ps.ip ≡ none) ⊎ (length (from_ip ps.ip (pending_of t)) ≤ 8))

    added :
        (ps : Params) (k c : String) (t : ℕ) (m : DeviceStore)
        → get m k ≡ none
        → leb max_pending (length (pending_of m)) ≡ false
        → over_share ps.ip (pending_of m) ≡ false
        → Bounded ps (put m k (new_request ps k c t))
    added ps k c t m free room share =
        rw
          (
            put_new m k (new_request ps k c t) free,
            pending_of-append m k (new_request ps k c t) refl,
          )
          (
            ground (arith, length-append (pending_of m) (new_request ps k c t ∷ [])),
            elim (share_bound ps.ip (pending_of m) share) [
              | inl n ↦ inl n
              | inr b ↦ inr (
                  ground (
                    arith,
                    filter-append_one (λ x. same_option x.ip ps.ip) (pending_of m)
                        (new_request ps k c t),
                  ))
            ],
          )

    open_caps :
        (ps : Params) (k : String) (ds : ℕ → ℕ → ℕ) (t : ℕ) (m : DeviceStore) (q : DeviceRequest)
        → get m k ≡ none
        → (open_request ps k ds t m).0 ≡ ok q
        → Bounded ps (open_request ps k ds t m).1
    open_caps ps k ds t m q free done =
        elim (Bool-cases (leb max_pending (length (pending_of m)))) [
          | inl full ↦ grind (arith, full, done)
          | inr room ↦ elim (Bool-cases (over_share ps.ip (pending_of m))) [
            | inl over ↦ grind (arith, room, over, done)
            | inr share ↦
                elim (Option-cases (generate_user_code ds generate_attempts (pending_of m))) [
                  | inl e ↦ grind (arith, room, share, e, done)
                  | inr (c, e) ↦ rw (room, share, e) (added ps k c t m free room share)
                ]
          ]
        ]
