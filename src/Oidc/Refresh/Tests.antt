-- ===== src/Oidc/Refresh/Tests.antt =====
-- The theorems on refresh tokens at a concrete store, with the identity for the digest.
use server_central.Prelude.{
  String, false, [], ◌∷◌, none, some, ◌≡◌, refl, ◌≢◌, ◌⊎◌, arith, ◌===◌, any, eq_iff,
}
use server_central.Prelude.Dict.{get}
use server_central.Oidc.Refresh.{
  RefreshRecord, RefreshGrant, Holder, TokenStore, reused, issue, rotate, rotate_found,
  rotate_unspent, revoke_for_user,
}
use server_central.Oidc.Refresh.Single.{good_count}
use server_central.Oidc.Refresh.Reachable.{IsSound, here, next, issues, rotates, Reach-IsSound}
use server_central.Oidc.Refresh.Rotation.{IsExchange, rotate-IsExchange, rotate_twice}
use server_central.Oidc.Refresh.Revocation.{holds_any, revoke_for_user_lem}

abbrev same : String → String
same s = s

abbrev alice : Holder
alice = record { user_id = "alice"; client_id = "app"; scope = "openid" }

abbrev empty_store : TokenStore
empty_store = record { tokens = []; file = [] }

empty_store-IsSound : IsSound empty_store
unfolding good_count
empty_store-IsSound = record { single = λ family. omega arith; saved = refl }

abbrev first : RefreshRecord
first = record {
  family_id = "f";
  user_id = "alice";
  client_id = "app";
  scope = "openid";
  issued_at = 0;
  expires_at = 1000;
  used_at = none;
}

abbrev store : TokenStore
store = record { tokens = ("a", first) ∷ []; file = ("a", first) ∷ [] }

abbrev grant : RefreshGrant
grant = record { family_id = "f"; user_id = "alice"; client_id = "app"; scope = "openid" }

abbrev old_token : String
old_token = "a"

abbrev new_token : String
new_token = "b"

abbrev alice_id : String
alice_id = "alice"

different : new_token ≢ old_token
different e = cc ((eq_iff new_token old_token).1 e)

Reach-IsSound_example : IsSound (rotate same "a" "b" 7 (issue same "f" alice "a" 5 empty_store)).1
unfolding any
Reach-IsSound_example =
    Reach-IsSound same empty_store-IsSound
      (next (next here (issues empty_store "f" alice "a" 5 refl)) (rotates _ "a" "b" 7))

rotate-IsExchange_example :
    (new_token ≡ new_token) × IsExchange same "a" "b" 7 store grant (rotate same "a" "b" 7 store).1
unfolding rotate rotate_found rotate_unspent get
rotate-IsExchange_example = rotate-IsExchange same "a" "b" 7 store grant "b" different refl

rotate_twice_example :
    let second = rotate same "a" "c" 9 (rotate same "a" "b" 7 store).1 in
    (second.0 ≡ reused) × (holds_any (λ r. r.family_id === "f") second.1 ≡ false)
unfolding rotate rotate_found rotate_unspent get
rotate_twice_example = rotate_twice same "a" "b" "c" 7 9 store grant "b" different refl

revoke_for_user_lem_example :
    (holds_any (λ x. x.user_id === "bob") (revoke_for_user "bob" store) ≡ false)
    × ((alice_id ≡ "bob") ⊎ (get (revoke_for_user "bob" store).tokens "a" ≡ some first))
unfolding get
revoke_for_user_lem_example = revoke_for_user_lem "bob" store "a" first refl
