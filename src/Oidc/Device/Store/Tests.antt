-- ===== src/Oidc/Device/Store/Tests.antt =====
-- The theorems on device requests at concrete codes and stores.
use server_central.Prelude.{
  ℕ, ◌≤◌, String, false, [], ◌∷◌, Option, none, some, ◌≡◌, refl, sym, subst, ◌∙◌, eq_iff, ◌≢◌, ◌↔◌,
  ◌⊎◌, ◌===◌, length, filter, every,
}
use server_central.Prelude.Dict.{get, put, values}
use server_central.Oidc.Device.Code.{
  normalize_user_code, in_alphabet, has_char, differs_enough, draw_code,
}
use server_central.Oidc.Device.Code.Slips.{Slip, wrong_key, differs_enough_iff}
use server_central.Oidc.Device.Store.{
  DeviceRequest, DeviceStore, Params, approved, new_request, prune, pending_of, generate_user_code,
  over_share, open_request, request, find_pending, from_ip, poll, poll_found, poll_recorded,
}
use server_central.Oidc.Device.Store.Sound.{
  IsDistinct, Reach, start, next, requests, Reach-IsDistinct,
}
use server_central.Oidc.Device.Store.Mistyped.{find_pending-mistyped}
use server_central.Oidc.Device.Store.Poll.{IsCollection, poll-IsCollection}
use server_central.Oidc.Device.Store.Caps.{request-caps}

abbrev same : String → String
same s = s

abbrev tv : Params
tv = record { client_id = "tv"; scope = "openid"; ip = some "10.0.0.1"; user_agent = none }

abbrev zeros : ℕ → ℕ → ℕ
zeros i j = 0

abbrev left_code : String
left_code = "BCDF"

abbrev right_code : String
right_code = "CBDF"

differs_enough_iff_example :
    (differs_enough left_code right_code ≡ false)
    ↔ ((left_code ≡ right_code) ⊎ Slip left_code right_code)
differs_enough_iff_example = differs_enough_iff left_code right_code tt

abbrev opened : DeviceStore
opened = (request tv "k" zeros 0 []).1

reached : Reach same opened
unfolding prune filter get
reached = next start (requests [] tv "k" zeros 0 refl)

Reach-IsDistinct_example : IsDistinct opened
Reach-IsDistinct_example = Reach-IsDistinct same reached

abbrev drawn : String
drawn = "BBBBBBBB"

abbrev typed : String
typed = "CBBBBBBB"

typed_as_is : normalize_user_code same typed ≡ typed
unfolding normalize_user_code in_alphabet has_char
typed_as_is = refl

other_code : drawn ≢ normalize_user_code same typed
other_code e = cc ((eq_iff drawn typed).1 (e ∙ typed_as_is))

slip : Slip drawn (normalize_user_code same typed)
slip = subst (Slip drawn) (sym typed_as_is) (wrong_key "B" "C" "BBBBBBB")

find_pending-mistyped_example : (find_pending same typed 1 opened).0 ≡ none
unfolding request open_request prune pending_of over_share generate_user_code draw_code
    differs_enough normalize_user_code in_alphabet has_char filter values every get put
find_pending-mistyped_example =
    find_pending-mistyped same typed "k" 1 (new_request tv "k" "BBBBBBBB" 0) reached refl refl slip
      other_code

request-caps_example :
    (length (pending_of opened) ≤ 64)
    × ((tv.ip ≡ none) ⊎ (length (from_ip tv.ip (pending_of opened)) ≤ 8))
unfolding request open_request prune pending_of over_share generate_user_code draw_code
    differs_enough filter values every get put
request-caps_example = request-caps tv "k" zeros 0 [] (new_request tv "k" "BBBBBBBB" 0) refl refl

abbrev answered : DeviceRequest
answered = record (new_request tv "k" "BBBBBBBB" 0) {
  status = approved;
  user_id = some "alice";
  approved_at = some 100;
}

abbrev store : DeviceStore
store = ("k", answered) ∷ []

abbrev polled : DeviceRequest
polled = record answered { last_polled_at = 5000 }

poll-IsCollection_example : IsCollection "k" "tv" 5000 store "alice" (poll "k" "tv" 5000 store).1
unfolding poll poll_found poll_recorded get
poll-IsCollection_example = poll-IsCollection "k" "tv" 5000 store polled "alice" 100 refl

not_radio : (r : DeviceRequest) → get store "k" ≡ some r → (r.client_id === "radio") ≡ false
unfolding get
not_radio r e = rw (← some_inj e)
  where
    some_inj : ◌≡◌ {A = Option DeviceRequest} (some answered) (some r) → answered ≡ r
    some_inj h = cc
