-- ===== src/Auth/Tests.antt =====
-- The theorems on accounts and sessions at a concrete store, with texts compared as passwords.
use server_central.Prelude.{
  ℕ, ◌-◌, ◌*◌, ◌+◌, ◌<◌, ◌≤◌, String, Bool, true, false, List, [], ◌∷◌, none, some, err, ok, ◌≡◌,
  refl, ◌↔◌, ◌++◌, arith, ◌===◌, any, filter, find, trim, length16, every, All-of_every,
}
use server_central.Prelude.Dict.{get, put, remove, values}
use server_central.Roles.{RoleStore}
use server_central.Oidc.Refresh.{RefreshRecord, TokenStore, delete_where, revoke_for_user}
use server_central.Auth.{UserRecord, SessionRecord, AuthStore, too_many_attempts, to_user_info}
use server_central.Auth.Sessions.{
  create_session, authenticate, drop_sessions, delete_sessions_for_user,
}
use server_central.Auth.Sessions.Same.{IsConsistent}
use server_central.Auth.Accounts.{
  needs_setup, check_owner, check_new_user, new_user, insert_user, setup_owner, create_user,
  normalize_username, normalize_email, delete_user, admin_set_password,
}
use server_central.Auth.Login.{login, login_checked}
use server_central.Auth.Reachable.{Reach, start, next, sets_up, Reach-IsConsistent}
use server_central.Auth.Access.{Backing, Login, authenticate_iff, login-IsAccepted}
use server_central.Auth.Revoked.{IsRevoked, admin_set_password-IsRevoked, delete_user-IsRevoked}
use server_central.Auth.Throttled.{rejects, attempts, ten_failures-block}

abbrev same : String → String
same s = s

abbrev equal : String → String → Bool
equal password hash = password === hash

abbrev no_roles : RoleStore
no_roles = record { roles = []; file = [] }

abbrev no_hook : String → Unit {0} → Unit {0}
no_hook user_id h = h

abbrev root : UserRecord
root = record {
  id = "u1";
  username = "root";
  password_hash = "longenough";
  is_owner = true;
  role_ids = some [];
  role = none;
  created_at = 7;
  system_user = none;
  extra_permissions = none;
  email = none;
}

abbrev session : SessionRecord
session = record {
  id = "s1";
  user_id = "u1";
  created_at = 7;
  last_seen_at = 7;
  ip = none;
  user_agent = none;
}

abbrev empty_store : AuthStore
empty_store = record {
  users = [];
  sessions = [];
  login_failures = [];
  users_file = [];
  sessions_file = [];
}

abbrev store : AuthStore
store = record {
  users = ("u1", root) ∷ [];
  sessions = ("t1", session) ∷ [];
  login_failures = [];
  users_file = ("u1", root) ∷ [];
  sessions_file = ("t1", session) ∷ [];
}

reached : Reach same equal no_hook store
unfolding setup_owner create_user create_session needs_setup normalize_username normalize_email trim
    length16 any values get put
reached =
    next start
      (sets_up no_roles "u1" "longenough" " root" "longenough" "t1" "s1" none none 7 _ refl refl)

abbrev second : UserRecord
second = new_user same "u2" "longenough" "root" [] true none 8

-- Two calls of `setupOwner` whose checks both pass before either inserts: two owners of one name.
race_run :
    (check_owner same "root" "longenough" empty_store ≡ ok tt)
    × ((insert_user same second (insert_user same root empty_store)).users
        ≡ ("u1", root) ∷ ("u2", second) ∷ [])
    × (second.is_owner ≡ true)
    × (second.username ≡ root.username)
unfolding check_owner needs_setup normalize_username normalize_email trim length16 any values put
    check_new_user
race_run = (refl, refl, refl, refl)

Reach-IsConsistent_example : IsConsistent store
Reach-IsConsistent_example = Reach-IsConsistent same equal no_hook reached

store-IsConsistent : IsConsistent store
store-IsConsistent = Reach-IsConsistent same equal no_hook reached

authenticate_iff_example :
    ((authenticate no_roles (some "t1") 9 store).0 ≡ some (to_user_info no_roles root))
    ↔ Backing no_roles "t1" 9 store (to_user_info no_roles root)
authenticate_iff_example = authenticate_iff no_roles "t1" 9 store (to_user_info no_roles root)

login-IsAccepted_example :
    Login same equal no_roles "root" "longenough" "t2" 20 store
      (login same equal no_roles "root" "longenough" "t2" "s2" none none 10 store).1
      "t2"
      (to_user_info no_roles root)
unfolding login login_checked normalize_username trim find values get
login-IsAccepted_example =
    login-IsAccepted same equal no_roles "root" "longenough" "t2" "s2" none none 10 20 store "t2"
      (to_user_info no_roles root) store-IsConsistent refl (arith_le) refl
  where
    arith_le : 20 - 10 ≤ 30 * 24 * 60 * 60 * 1000
    arith_le = omega arith

abbrev guesses : List (String × ℕ)
guesses =
    ("a", 1)
    ∷ ("b", 2)
    ∷ ("c", 3)
    ∷ ("d", 4)
    ∷ ("e", 5)
    ∷ ("f", 6)
    ∷ ("g", 7)
    ∷ ("h", 8)
    ∷ ("i", 9)
    ∷ []

ten_failures-block_example :
    login same equal no_roles "root" "longenough" "t2" "s2" none none 500
      (attempts same equal no_roles "root" none none (guesses ++ ("j", 10) ∷ []) store)
    ≡ (
      err too_many_attempts,
      attempts same equal no_roles "root" none none (guesses ++ ("j", 10) ∷ []) store,
    )
unfolding normalize_username trim find values get every
ten_failures-block_example =
    ten_failures-block same equal no_roles "root" none none guesses "j" 10 500 "longenough" "t2"
      "s2" store refl
      (All-of_every (λ a. rejects same equal no_roles "root" none none (some root) a.0) guesses
        refl)
      refl refl soon
  where
    soon : 500 < 10 + 15 * 60 * 1000
    soon = omega arith

abbrev guest : UserRecord
guest = record root { id = "u2"; username = "guest"; is_owner = false }

abbrev guest_session : SessionRecord
guest_session = record session { id = "s2"; user_id = "u2" }

abbrev two_users : AuthStore
two_users = record {
  users = ("u1", root) ∷ ("u2", guest) ∷ [];
  sessions = ("t1", session) ∷ ("t2", guest_session) ∷ [];
  login_failures = [];
  users_file = ("u1", root) ∷ ("u2", guest) ∷ [];
  sessions_file = ("t1", session) ∷ ("t2", guest_session) ∷ [];
}

abbrev guest_token : RefreshRecord
guest_token = record {
  family_id = "f";
  user_id = "u2";
  client_id = "app";
  scope = "openid";
  issued_at = 0;
  expires_at = 1000;
  used_at = none;
}

abbrev tokens : TokenStore
tokens = record { tokens = ("d", guest_token) ∷ []; file = ("d", guest_token) ∷ [] }

abbrev no_tokens : TokenStore
no_tokens = record { tokens = []; file = [] }

abbrev reset_guest : UserRecord
reset_guest = record guest { password_hash = "brandnewone" }

admin_set_password-IsRevoked_example :
    IsRevoked "u2" "t1" session
      (record two_users {
        users = ("u1", root) ∷ ("u2", reset_guest) ∷ [];
        users_file = ("u1", root) ∷ ("u2", reset_guest) ∷ [];
        sessions = ("t1", session) ∷ [];
        sessions_file = ("t1", session) ∷ [];
      })
      no_tokens
unfolding admin_set_password delete_sessions_for_user drop_sessions revoke_for_user delete_where
    length16 any values filter get put
admin_set_password-IsRevoked_example =
    admin_set_password-IsRevoked "u2" "brandnewone" "brandnewone" "t1" session two_users tokens refl
      refl

delete_user-IsRevoked_example :
    IsRevoked "u2" "t1" session store no_tokens
    × (get store.users "u2" ≡ none)
    × (guest.is_owner ≡ false)
    × (("u2" === "u1") ≡ false)
unfolding delete_user delete_sessions_for_user drop_sessions revoke_for_user delete_where any values
    filter get remove
delete_user-IsRevoked_example =
    delete_user-IsRevoked "u2" "u1" "t1" session guest two_users tokens refl refl refl
