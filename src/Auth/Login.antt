-- ===== src/Auth/Login.antt =====
-- apps/server/src/auth.ts: `AuthStore.login`, and its throttle. `verify` is `Bun.password.verify`.
use server_central.Prelude.{
  ℕ, ◌+◌, ◌*◌, String, Bool, false, not, Option, none, some, Result, ok, err, if◌then◌else◌, ◌===◌,
  leb, ltb, find, or_else,
}
use server_central.Prelude.Dict.{get, put, remove, values}
use server_central.Roles.{RoleStore}
use server_central.Auth.{
  UserRecord, Throttle, AuthStore, UserInfo, AuthError, too_many_attempts, invalid_login,
  to_user_info,
}
use server_central.Auth.Sessions.{create_session}
use server_central.Auth.Accounts.{normalize_username}

abbrev pub max_login_failures : ℕ
max_login_failures = 10

abbrev pub login_block_ms : ℕ
login_block_ms = 15 * 60 * 1000

-- One more failure; the tenth blocks, and the count starts again.
unfoldable pub count_failure : ℕ → Option Throttle → Throttle
count_failure now entry =
    let old : Throttle = or_else entry (record { count = 0; blocked_until = 0 }) in
    if leb max_login_failures (old.count + 1)
    then record { count = 0; blocked_until = now + login_block_ms }
    else record old { count = old.count + 1 }

unfoldable pub record_login_failure : String → ℕ → AuthStore → AuthStore
unfolding count_failure
record_login_failure key now s = record s {
  login_failures = put s.login_failures key (count_failure now (get s.login_failures key));
}

abbrev pub is_blocked : ℕ → Option Throttle → Bool
is_blocked now none = false
is_blocked now (some entry) = ltb now entry.blocked_until

module _ (to_lower_case : String → String) (verify : (password hash : String) → Bool) where
  -- `ip ?? normalizeUsername(username)`
  abbrev pub throttle_key : String → Option String → String
  throttle_key username ip = or_else ip (normalize_username to_lower_case username)

  abbrev pub account_of : String → AuthStore → Option UserRecord
  account_of username s =
      find (λ u. u.username === normalize_username to_lower_case username) (values s.users)

  -- `login` behind the throttle. `dummy_hash` is compared where there is no account, to no effect on
  -- what is returned.
  unfoldable pub login_checked :
      RoleStore
      → Option UserRecord
      → (password token uuid key : String) → (ip user_agent : Option String) → ℕ
      → AuthStore
      → Result AuthError (String × UserInfo) × AuthStore
  login_checked roles none password token uuid key ip user_agent now s =
      (err invalid_login, record_login_failure key now s)
  login_checked roles (some rec) password token uuid key ip user_agent now s =
      if not (verify password rec.password_hash)
      then (err invalid_login, record_login_failure key now s)
      else (
        ok (token, to_user_info roles rec),
        create_session token uuid rec.id ip user_agent now
            (record s { login_failures = remove s.login_failures key }),
      )

  unfoldable pub login :
      RoleStore
      → (username password token uuid : String) → (ip user_agent : Option String) → ℕ
      → AuthStore
      → Result AuthError (String × UserInfo) × AuthStore
  unfolding login_checked
  login roles username password token uuid ip user_agent now s =
      if is_blocked now (get s.login_failures (throttle_key username ip))
      then (err too_many_attempts, s)
      else login_checked roles (account_of username s) password token uuid
          (throttle_key username ip) ip user_agent now s
