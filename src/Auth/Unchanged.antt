-- ===== src/Auth/Unchanged.antt =====
-- The calls of apps/server/src/auth.ts that leave the accounts as they are, a restart among them.
use server_central.Prelude.{
  ℕ, String, Bool, false, not, ◌||◌, [], ◌∷◌, Option, none, some, ◌≡◌, refl, sym, subst, inl, inr,
  arith, any, All, Bool-cases, is_empty, is_some,
}
use server_central.Prelude.Dict.{Dict, get, values}
use server_central.Roles.{RoleStore}
use server_central.Auth.{
  UserRecord, AuthStore, is_expired, is_old, init, prune_expired, migrate_roles,
  backfill_session_ids,
}
use server_central.Auth.Sessions.Same.{SameAccounts, IsConsistent, same-IsConsistent}
use server_central.Auth.Sessions.{create_session}
use server_central.Auth.Login.{
  record_login_failure, login, login_checked, is_blocked, throttle_key, account_of,
}
use server_central.Auth.Distinct.{AreSound, Entry}

prune_expired-same : (now : ℕ) (s : AuthStore) → SameAccounts s (prune_expired now s)
unfolding prune_expired
prune_expired-same now s =
    elim (Bool-cases
      (any (λ x. is_expired now x || not (is_some (get s.users x.user_id))) (values s.sessions))) [
        | inl e ↦ rw (e, prune_expired) (refl, refl)
        | inr e ↦ rw (e, prune_expired) (refl, refl)
      ]

none_old : (m : Dict UserRecord) → All (λ e. Entry e.0 e.1) m → any is_old (values m) ≡ false
unfolding any values
none_old [] h = refl
none_old ((k, u) ∷ m) ((i, l), t) = rw (l, none_old m t) (ground arith)

migrate_roles_none : (s : AuthStore) → AreSound s.users → migrate_roles s ≡ s
unfolding migrate_roles
migrate_roles_none s h = rw (none_old s.users h.entries, migrate_roles)

backfill-same :
    (uuid : String → String) (s : AuthStore) → SameAccounts s (backfill_session_ids uuid s)
unfolding backfill_session_ids
backfill-same uuid s = elim (Bool-cases (any (λ x. is_empty x.id) (values s.sessions))) [
  | inl e ↦ rw (e, backfill_session_ids) (refl, refl)
  | inr e ↦ rw (e, backfill_session_ids) (refl, refl)
]

-- A restart reads the files back.
pub init-IsConsistent :
    (uuid : String → String) (now : ℕ) (s : AuthStore)
    → IsConsistent s
    → IsConsistent (init s.users_file s.sessions_file uuid now)
unfolding init
init-IsConsistent uuid now s h =
    let fresh : AuthStore = record {
      users = s.users_file;
      sessions = s.sessions_file;
      login_failures = [];
      users_file = s.users_file;
      sessions_file = s.sessions_file;
    } in
    let read : IsConsistent fresh = record { users = rw h.saved h.users; saved = refl } in
    same-IsConsistent (backfill_session_ids uuid (migrate_roles fresh))
      (prune_expired-same now (backfill_session_ids uuid (migrate_roles fresh)))
      (same-IsConsistent (migrate_roles fresh) (backfill-same uuid (migrate_roles fresh))
        (subst IsConsistent (sym (migrate_roles_none fresh read.users)) read))

pub opened-same :
    (token uuid user_id : String) (ip agent : Option String) (now : ℕ) (s : AuthStore)
    → SameAccounts s (create_session token uuid user_id ip agent now s)
unfolding create_session
opened-same token uuid user_id ip agent now s = (refl, refl)

pub login-same :
    (lower : String → String) (verify : (password hash : String) → Bool) (roles : RoleStore)
    (username password token uuid : String) (ip agent : Option String) (now : ℕ) (s : AuthStore)
    → SameAccounts s (login lower verify roles username password token uuid ip agent now s).1
unfolding login login_checked record_login_failure create_session
login-same lower verify roles username password token uuid ip agent now s =
    elim (Bool-cases
      (is_blocked now (get s.login_failures (throttle_key lower verify username ip)))) [
        | inl e ↦ rw (e, login) (refl, refl)
        | inr e ↦ rw (e, login) (of_account (account_of lower verify username s))
      ]
  where
    of_account :
        (o : Option UserRecord)
        → SameAccounts s
            (login_checked lower verify roles o password token uuid
              (throttle_key lower verify username ip)
              ip
              agent
              now
              s).1
    of_account none = (refl, refl)
    of_account (some rec) = elim (Bool-cases (verify password rec.password_hash)) [
      | inl e ↦ rw (e, login_checked) (refl, refl)
      | inr e ↦ rw (e, login_checked) (refl, refl)
    ]
