-- ===== src/Auth/Accounts.antt =====
-- apps/server/src/auth.ts: the operations of `AuthStore` on accounts. `to_lower_case` is JavaScript's.
pub mod Kept
use server_central.Prelude.{
  ℕ, String, code, Bool, true, false, not, ◌&&◌, ◌||◌, List, Option, none, some, Result, ok, err,
  ◌>>=◌, ◌>>◌, ensure, if◌then◌else◌, ◌===◌, ◌==◌, leb, ltb, is_empty, is_some, is_space, trim,
  same_option, any, filter, length, length16, includes, map, or_else, [], ◌∷◌, ◌==◌,
}
use server_central.Prelude.Dict.{Dict, get, put, remove, values}
use server_central.Prelude.Clean.{clean}
use server_central.Permission.Match.{is_valid_permission}
use server_central.Roles.{RoleStore, get_role}
use server_central.Auth.{
  UserRecord, AuthStore, UserInfo, AuthError, setup_completed, user_not_found, owner_undeletable,
  own_account, owner_roles, username_required, password_too_short, username_taken, email_taken,
  owner_only, owner_only, unknown_role, invalid_permission, invalid_system_user, invalid_email,
  to_user_info, held_roles, persist_users,
}
use server_central.Auth.Checks.{assert_email_shape, assert_system_username}
use server_central.Auth.Sessions.{create_session, delete_sessions_for_user}

unfoldable pub needs_setup : AuthStore → Bool
needs_setup s = length s.users == 0

unfoldable pub list_users : RoleStore → AuthStore → List UserInfo
list_users roles s = map (to_user_info roles) (values s.users)

unfoldable pub get_user_by_id : RoleStore → String → AuthStore → Option UserInfo
get_user_by_id roles user_id s = elim (get s.users user_id) [
  | none ↦ none
  | some rec ↦ some (to_user_info roles rec)
]

unfoldable pub count_role_holders : String → AuthStore → ℕ
count_role_holders role_id s =
    length (filter (λ u. includes (held_roles u) role_id) (values s.users))

-- One round of `knownRoleIds`. The ids are taken not to be names of `Object.prototype`.
check_role_id : RoleStore → String → Result AuthError (Option String)
check_role_id roles id =
    if not (is_some (get_role roles id)) then err (unknown_role id) else ok (some id)

unfoldable pub known_role_ids : RoleStore → List String → Result AuthError (List String)
unfolding check_role_id
known_role_ids roles role_ids = clean (check_role_id roles) [] role_ids

-- One round of `setPermissions`.
check_extra : String → Result AuthError (Option String)
check_extra raw =
    let node = trim raw in
    if is_empty node
    then ok none
    else if not (is_valid_permission node)
    then err (invalid_permission node)
    else ok (some node)

unfoldable pub assert_email_available :
    (email : String) → (except : Option String) → AuthStore → Result AuthError (Unit {0})
assert_email_available email except s = do
  assert_email_shape email
  ensure
      (not (
        any (λ u. not (same_option (some u.id) except) && same_option u.email (some email))
          (values s.users)))
      email_taken

-- The address of a new account.
abbrev checked_email : Option String → AuthStore → Result AuthError (Unit {0})
checked_email none s = ok tt
checked_email (some address) s = assert_email_available address none s

-- The record of an account replaced, and written.
abbrev changed : String → UserRecord → AuthStore → AuthStore
changed user_id rec s = persist_users (record s { users = put s.users user_id rec })

module _ (to_lower_case : String → String) where
  unfoldable pub normalize_username : String → String
  normalize_username username = to_lower_case (trim username)

  -- The address, or none where nothing is left of it.
  unfoldable pub normalize_email : Option String → Option String
  normalize_email none = none
  normalize_email (some email) =
      let address = to_lower_case (trim email) in if is_empty address then none else some address

  -- `createUser` up to where it waits for the hash.
  unfoldable pub check_new_user :
      (username password : String)
      → (email : Option String) → AuthStore
      → Result AuthError (Unit {0})
  check_new_user username password email s = do
    ensure (not (is_empty (normalize_username username))) username_required
    ensure (leb 8 (length16 password)) password_too_short
    ensure (not (any (λ u. u.username === normalize_username username) (values s.users)))
        username_taken
    checked_email (normalize_email email) s

  -- The record that it builds then; `hashed` is what `Bun.password.hash(password)` gives.
  abbrev pub new_user :
      (uuid hashed username : String)
      → List String
      → (is_owner : Bool) → (email : Option String) → ℕ
      → UserRecord
  new_user uuid hashed username role_ids is_owner email now = record {
    id = uuid;
    username = normalize_username username;
    password_hash = hashed;
    is_owner = is_owner;
    role_ids = some role_ids;
    role = none;
    created_at = now;
    system_user = none;
    extra_permissions = none;
    email = normalize_email email;
  }

  -- What it does with the record, in the state that it finds by then.
  abbrev pub insert_user : UserRecord → AuthStore → AuthStore
  insert_user rec s = persist_users (record s { users = put s.users rec.id rec })

  -- `createUser` where no other call runs while it waits.
  unfoldable pub create_user :
      RoleStore
      → (uuid hashed username password : String) → List String
      → (is_owner : Bool) → (email : Option String) → ℕ
      → AuthStore
      → Result AuthError (UserInfo × AuthStore)
  unfolding check_new_user
  create_user roles uuid hashed username password role_ids is_owner email now s = do
    check_new_user username password email s
    let rec = new_user uuid hashed username role_ids is_owner email now
    ok (to_user_info roles rec, insert_user rec s)

  -- `setupOwner` up to where it waits.
  unfoldable pub check_owner :
      (username password : String) → AuthStore → Result AuthError (Unit {0})
  unfolding check_new_user
  check_owner username password s = do
    ensure (needs_setup s) setup_completed
    check_new_user username password none s

  unfoldable pub setup_owner :
      RoleStore
      → (uuid hashed username password : String) → (token session_uuid : String)
      → (ip user_agent : Option String) → ℕ
      → AuthStore
      → Result AuthError ((String × UserInfo) × AuthStore)
  setup_owner roles uuid hashed username password token session_uuid ip user_agent now s = do
    ensure (needs_setup s) setup_completed
    created ← create_user roles uuid hashed username password [] true none now s
    ok ((token, created.0), create_session token session_uuid uuid ip user_agent now created.1)

  -- `addUser` up to where it waits: the roles it goes on with.
  unfoldable pub check_added :
      RoleStore
      → (username password : String) → List String
      → (email : Option String) → AuthStore
      → Result AuthError (List String)
  unfolding check_new_user
  check_added roles username password role_ids email s = do
    known ← known_role_ids roles role_ids
    check_new_user username password email s
    ok known

  unfoldable pub add_user :
      RoleStore
      → (uuid hashed username password : String) → List String
      → (email : Option String) → ℕ
      → AuthStore
      → Result AuthError (UserInfo × AuthStore)
  add_user roles uuid hashed username password role_ids email now s = do
    known ← known_role_ids roles role_ids
    create_user roles uuid hashed username password known false email now s

  set_email_of : Option UserRecord → String → Option String → AuthStore → Result AuthError AuthStore
  set_email_of none user_id address s = err user_not_found
  set_email_of (some rec) user_id none s = ok (changed user_id (record rec { email = none }) s)
  set_email_of (some rec) user_id (some address) s = do
    assert_email_available address (some user_id) s
    ok (changed user_id (record rec { email = some address }) s)

  unfoldable pub set_email :
      (user_id : String) → (email : Option String) → AuthStore → Result AuthError AuthStore
  unfolding set_email_of
  set_email user_id email s = set_email_of (get s.users user_id) user_id (normalize_email email) s

set_user_roles_of :
    RoleStore → Option UserRecord → String → List String → AuthStore → Result AuthError AuthStore
set_user_roles_of roles none user_id role_ids s = err user_not_found
set_user_roles_of roles (some rec) user_id role_ids s = do
  ensure (not rec.is_owner) owner_roles
  known ← known_role_ids roles role_ids
  ok (changed user_id (record rec { role_ids = some known }) s)

unfoldable pub set_user_roles :
    RoleStore → (user_id : String) → List String → AuthStore → Result AuthError AuthStore
unfolding set_user_roles_of
set_user_roles roles user_id role_ids s =
    set_user_roles_of roles (get s.users user_id) user_id role_ids s

set_permissions_of :
    Option UserRecord → String → List String → AuthStore → Result AuthError AuthStore
unfolding check_extra
set_permissions_of none user_id permissions s = err user_not_found
set_permissions_of (some rec) user_id permissions s = do
  cleaned ← clean check_extra [] permissions
  ok (changed user_id (record rec { extra_permissions = some cleaned }) s)

unfoldable pub set_permissions :
    (user_id : String) → List String → AuthStore → Result AuthError AuthStore
unfolding set_permissions_of
set_permissions user_id permissions s =
    set_permissions_of (get s.users user_id) user_id permissions s

-- `systemUser?.trim() || null`
abbrev pub trimmed_name : Option String → Option String
trimmed_name none = none
trimmed_name (some name) = if is_empty (trim name) then none else some (trim name)

set_system_user_of :
    Option UserRecord → String → Option String → AuthStore → Result AuthError AuthStore
set_system_user_of none user_id name s = err user_not_found
set_system_user_of (some rec) user_id none s =
    ok (changed user_id (record rec { system_user = none }) s)
set_system_user_of (some rec) user_id (some name) s = do
  assert_system_username name
  ok (changed user_id (record rec { system_user = some name }) s)

unfoldable pub set_system_user :
    (user_id : String) → Option String → AuthStore → Result AuthError AuthStore
unfolding set_system_user_of
set_system_user user_id system_user s =
    set_system_user_of (get s.users user_id) user_id (trimmed_name system_user) s

module _ {H : Type 0} (on_credentials_revoked : String → H → H) where
  unfoldable pub delete_user :
      (user_id caller_id : String) → AuthStore × H → Result AuthError (AuthStore × H)
  delete_user user_id caller_id (s, h) = elim (get s.users user_id) [
    | none ↦ ok (s, h)
    | some rec ↦ do
      ensure (not rec.is_owner) owner_undeletable
      ensure (not (user_id === caller_id)) own_account
      ok (
          delete_sessions_for_user on_credentials_revoked user_id
            (persist_users (record s { users = remove s.users user_id }), h))
  ]

  unfoldable pub admin_set_password :
      (user_id password hashed : String) → AuthStore × H → Result AuthError (AuthStore × H)
  admin_set_password user_id password hashed (s, h) = elim (get s.users user_id) [
    | none ↦ err user_not_found
    | some rec ↦ do
      ensure (leb 8 (length16 password)) password_too_short
      ok (
          delete_sessions_for_user on_credentials_revoked user_id
            (changed user_id (record rec { password_hash = hashed }) s, h))
  ]

unfoldable pub require_owner : Option UserInfo → Result AuthError (Unit {0})
require_owner none = err owner_only
require_owner (some user) = ensure user.is_owner owner_only
