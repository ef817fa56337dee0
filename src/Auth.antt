-- ===== src/Auth.antt =====
-- apps/server/src/auth.ts: the accounts and sessions that `AuthStore` keeps, its two files, and the
-- start. Optional fields are `none` where the source leaves them out; an absent `isOwner` counts as
-- false there, and an absent session id, ip or user agent as empty or null. Writes are taken to
-- succeed. `hash` and `verify` of `Bun.password`, `randomUUID` and `randomBytes` enter as arguments.
mod Tests
pub mod Sessions
pub mod Checks
pub mod Accounts
pub mod Login
pub mod Distinct
pub mod Access
pub mod Revoked
pub mod Throttled
pub mod Unchanged
pub mod Reachable
use server_central.Prelude.{
  ℕ, ◌+◌, ◌-◌, ◌*◌, String, Bool, true, false, not, ◌&&◌, ◌||◌, List, [], ◌∷◌, Option, none, some,
  if◌then◌else◌, ◌===◌, ltb, is_empty, is_some, or_else, any,
}
use server_central.Prelude.Dict.{Dict, get, keep, values, update_all}
use server_central.Permission.Subject.{effective_permissions}
use server_central.Roles.{RoleStore, resolve}

abbrev pub session_ttl_ms : ℕ
session_ttl_ms = 30 * 24 * 60 * 60 * 1000

pub record UserRecord : Type 0 where
  pub id : String
  pub username : String
  pub password_hash : String
  pub is_owner : Bool
  pub role_ids : Option (List String)
  pub role : Option String
  pub created_at : ℕ
  pub system_user : Option String
  pub extra_permissions : Option (List String)
  pub email : Option String

pub record SessionRecord : Type 0 where
  pub id : String
  pub user_id : String
  pub created_at : ℕ
  pub last_seen_at : ℕ
  pub ip : Option String
  pub user_agent : Option String

-- A value of `loginFailures`.
pub record Throttle : Type 0 where
  pub count : ℕ
  pub blocked_until : ℕ

pub record AuthStore : Type 0 where
  pub users : Dict UserRecord
  pub sessions : Dict SessionRecord
  pub login_failures : Dict Throttle
  pub users_file : Dict UserRecord
  pub sessions_file : Dict SessionRecord

pub record UserInfo : Type 0 where
  pub id : String
  pub username : String
  pub is_owner : Bool
  pub role_ids : List String
  pub permissions : List String
  pub created_at : ℕ
  pub system_user : Option String
  pub email : Option String

-- The errors that are thrown, by their messages.
pub data AuthError : Type 0 where
  setup_completed too_many_attempts invalid_login user_not_found : AuthError
  owner_undeletable own_account owner_roles session_not_found own_session : AuthError
  username_required password_too_short username_taken email_taken owner_only : AuthError
  unknown_role invalid_permission invalid_system_user invalid_email : String → AuthError

abbrev pub held_roles : UserRecord → List String
held_roles rec = or_else rec.role_ids []

unfoldable pub to_user_info : RoleStore → UserRecord → UserInfo
to_user_info roles rec = record {
  id = rec.id;
  username = rec.username;
  is_owner = rec.is_owner;
  role_ids = held_roles rec;
  permissions =
      effective_permissions rec.is_owner (resolve roles (held_roles rec))
        (or_else rec.extra_permissions []);
  created_at = rec.created_at;
  system_user = rec.system_user;
  email = rec.email;
}

abbrev pub persist_users : AuthStore → AuthStore
persist_users s = record s { users_file = s.users }

abbrev pub persist_sessions : AuthStore → AuthStore
persist_sessions s = record s { sessions_file = s.sessions }

-- `migrateRoles`: the records it changes, and the change.
abbrev is_old : UserRecord → Bool
is_old rec = not (is_some rec.role_ids || not (is_some rec.role))

migrate_role : UserRecord → String → UserRecord
migrate_role rec role = record rec {
  is_owner = role === "owner";
  role_ids = some (if role === "owner" || role === "none" then [] else role ∷ []);
  role = none;
}

abbrev migrate_record : UserRecord → UserRecord
migrate_record rec =
    if is_old rec then elim rec.role [ none ↦ rec | some role ↦ migrate_role rec role ] else rec

unfoldable pub migrate_roles : AuthStore → AuthStore
unfolding migrate_role
migrate_roles s =
    if any is_old (values s.users)
    then persist_users (record s { users = update_all migrate_record s.users })
    else s

-- `backfillSessionIds`; the id drawn for the session that stands under a token is `uuid token`.
backfill_session : (uuid : String → String) → Dict SessionRecord → Dict SessionRecord
backfill_session uuid [] = []
backfill_session uuid ((token, x) ∷ m) =
    let rest = backfill_session uuid m in
    (token, if is_empty x.id then record x { id = uuid token } else x) ∷ rest

unfoldable pub backfill_session_ids : (uuid : String → String) → AuthStore → AuthStore
unfolding backfill_session
backfill_session_ids uuid s =
    if any (λ x. is_empty x.id) (values s.sessions)
    then persist_sessions (record s { sessions = backfill_session uuid s.sessions })
    else s

-- The session counts as expired.
abbrev pub is_expired : ℕ → SessionRecord → Bool
is_expired now x = ltb session_ttl_ms (now - x.last_seen_at)

unfoldable pub prune_expired : ℕ → AuthStore → AuthStore
prune_expired now s =
    if any (λ x. is_expired now x || not (is_some (get s.users x.user_id))) (values s.sessions)
    then persist_sessions (record s {
      sessions =
          keep (λ token x. not (is_expired now x || not (is_some (get s.users x.user_id))))
            s.sessions;
    })
    else s

-- `users` and `sessions` are what the files hold, empty where one is missing or no JSON.
unfoldable pub init :
    Dict UserRecord → Dict SessionRecord → (uuid : String → String) → ℕ → AuthStore
unfolding migrate_roles backfill_session_ids prune_expired
init users sessions uuid now = prune_expired now (
    backfill_session_ids uuid (
      migrate_roles (record {
        users = users;
        sessions = sessions;
        login_failures = [];
        users_file = users;
        sessions_file = sessions;
      })))
