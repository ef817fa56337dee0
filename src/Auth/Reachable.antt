-- ===== src/Auth/Reachable.antt =====
-- The calls of `AuthStore` as steps, and what holds of the accounts after any sequence of them.
use server_central.Prelude.{
  ℕ, String, Bool, true, false, List, [], Option, none, ok, ensured, ◌≡◌, refl,
}
use server_central.Prelude.Dict.{get}
use server_central.Roles.{RoleStore}
use server_central.Auth.{AuthStore, UserInfo, init}
use server_central.Auth.Sessions.Same.{
  SameAccounts, IsConsistent, same-IsConsistent, logout-same, authenticate-same,
  revoke_session-same,
}
use server_central.Auth.Sessions.{create_session, logout, authenticate, revoke_session}
use server_central.Auth.Accounts.{
  needs_setup, check_owner, check_added, new_user, insert_user, setup_owner, add_user, set_email,
  set_user_roles, set_permissions, set_system_user, delete_user, admin_set_password,
}
use server_central.Auth.Accounts.Kept.Overlap.{setup_later-IsConsistent, add_later-IsConsistent}
use server_central.Auth.Accounts.Kept.Calls.{
  set_user_roles-IsConsistent, set_permissions-IsConsistent, set_system_user-IsConsistent,
  set_email-IsConsistent, setup_owner-IsConsistent, add_user-IsConsistent, delete_user-IsConsistent,
  admin_set_password-IsConsistent,
}
use server_central.Auth.Login.{login}
use server_central.Auth.Distinct.{none-AreSound}
use server_central.Auth.Unchanged.{init-IsConsistent, opened-same, login-same}

module _ (lower : String → String) (verify : (password hash : String) → Bool) {H : Type 0}
    (hook : String → H → H) where
  -- One call, by what it does to the store. An id that is drawn is none that is taken. The RPC gate
  -- lets nobody add an account before the first is set up. `setupOwner` and `addUser` wait between
  -- their checks and the insertion: in `sets_up` and `adds` nothing else runs meanwhile; in
  -- `sets_up_later` and `adds_later` other calls do, from `s`, where the checks are made, to `t`, and
  -- they leave the accounts as they are. The session of the first owner is then opened later, too.
  pub data Step : AuthStore → AuthStore → Type 0 where
    restarts :
        {s : AuthStore} (uuid : String → String) (now : ℕ)
        → Step s (init s.users_file s.sessions_file uuid now)
    sets_up :
        {s s' : AuthStore} (roles : RoleStore)
        (uuid hashed username password token session : String) (ip agent : Option String) (now : ℕ)
        (made : String × UserInfo)
        → get s.users uuid ≡ none
        → setup_owner lower roles uuid hashed username password token session ip agent now s
          ≡ ok (made, s')
        → Step s s'
    adds :
        {s s' : AuthStore} (roles : RoleStore) (uuid hashed username password : String)
        (ids : List String) (email : Option String) (now : ℕ) (made : UserInfo)
        → get s.users uuid ≡ none
        → needs_setup s ≡ false
        → add_user lower roles uuid hashed username password ids email now s ≡ ok (made, s')
        → Step s s'
    sets_up_later :
        (s : AuthStore) {t : AuthStore} (uuid hashed username password : String) (now : ℕ)
        (u : Unit {0})
        → check_owner lower username password s ≡ ok u
        → SameAccounts s t
        → get t.users uuid ≡ none
        → Step t (insert_user lower (new_user lower uuid hashed username [] true none now) t)
    adds_later :
        (s : AuthStore) {t : AuthStore} (roles : RoleStore) (uuid hashed username password : String)
        (ids known : List String) (email : Option String) (now : ℕ)
        → needs_setup s ≡ false
        → check_added lower roles username password ids email s ≡ ok known
        → SameAccounts s t
        → get t.users uuid ≡ none
        → Step t (insert_user lower (new_user lower uuid hashed username known false email now) t)
    opens_session :
        {s : AuthStore} (token uuid user_id : String) (ip agent : Option String) (now : ℕ)
        → Step s (create_session token uuid user_id ip agent now s)
    logs_in :
        {s : AuthStore} (roles : RoleStore) (username password token uuid : String)
        (ip agent : Option String) (now : ℕ)
        → Step s (login lower verify roles username password token uuid ip agent now s).1
    logs_out : {s : AuthStore} (token : Option String) → Step s (logout token s)
    authenticates :
        {s : AuthStore} (roles : RoleStore) (token : Option String) (now : ℕ)
        → Step s (authenticate roles token now s).1
    revokes :
        {s s' : AuthStore} (user_id id : String) (current : Option String)
        → revoke_session user_id id current s ≡ ok s'
        → Step s s'
    sets_roles :
        {s s' : AuthStore} (roles : RoleStore) (k : String) (ids : List String)
        → set_user_roles roles k ids s ≡ ok s'
        → Step s s'
    sets_permissions :
        {s s' : AuthStore} (k : String) (nodes : List String)
        → set_permissions k nodes s ≡ ok s'
        → Step s s'
    sets_system_user :
        {s s' : AuthStore} (k : String) (name : Option String)
        → set_system_user k name s ≡ ok s'
        → Step s s'
    sets_email :
        {s s' : AuthStore} (k : String) (email : Option String)
        → set_email lower k email s ≡ ok s'
        → Step s s'
    deletes :
        {s s' : AuthStore} (k caller : String) (x x' : H)
        → delete_user hook k caller (s, x) ≡ ok (s', x')
        → Step s s'
    sets_password :
        {s s' : AuthStore} (k password hashed : String) (x x' : H)
        → admin_set_password hook k password hashed (s, x) ≡ ok (s', x')
        → Step s s'

  pub data Reach : AuthStore → Type 0 where
    start : Reach (record {
      users = [];
      sessions = [];
      login_failures = [];
      users_file = [];
      sessions_file = [];
    })
    next : {s s' : AuthStore} → Reach s → Step s s' → Reach s'

  Step-IsConsistent : {s s' : AuthStore} → Step s s' → IsConsistent s → IsConsistent s'
  Step-IsConsistent {s} (restarts uuid now) h = init-IsConsistent uuid now s h
  Step-IsConsistent {s}
        (sets_up roles uuid hashed username password token session ip agent now made free e) h =
      ensured (λ p. IsConsistent p.1) _
        (setup_owner-IsConsistent lower roles uuid hashed username password token session ip agent
          now s free h)
        e
  Step-IsConsistent {s} (adds roles uuid hashed username password ids email now made free there e)
        h =
      ensured (λ p. IsConsistent p.1) _
        (add_user-IsConsistent lower roles uuid hashed username password ids email now s free there
          h)
        e
  Step-IsConsistent (sets_up_later s {t} uuid hashed username password now u passed same free) h =
      setup_later-IsConsistent lower uuid hashed username password now s t u passed same free h
  Step-IsConsistent
        (adds_later s {t} roles uuid hashed username password ids known email now there passed same
          free)
        h =
      add_later-IsConsistent lower roles uuid hashed username password ids known email now s t there
        passed same free h
  Step-IsConsistent {s} (opens_session token uuid user_id ip agent now) h =
      same-IsConsistent s (opened-same token uuid user_id ip agent now s) h
  Step-IsConsistent {s} (logs_in roles username password token uuid ip agent now) h =
      same-IsConsistent s
        (login-same lower verify roles username password token uuid ip agent now s) h
  Step-IsConsistent {s} (logs_out token) h = same-IsConsistent s (logout-same token s) h
  Step-IsConsistent {s} (authenticates roles token now) h =
      same-IsConsistent s (authenticate-same roles token now s) h
  Step-IsConsistent {s} (revokes user_id id current e) h =
      same-IsConsistent s (ensured (SameAccounts s) _ (revoke_session-same user_id id current s) e)
        h
  Step-IsConsistent {s} (sets_roles roles k ids e) h =
      ensured IsConsistent _ (set_user_roles-IsConsistent roles k ids s h) e
  Step-IsConsistent {s} (sets_permissions k nodes e) h =
      ensured IsConsistent _ (set_permissions-IsConsistent k nodes s h) e
  Step-IsConsistent {s} (sets_system_user k name e) h =
      ensured IsConsistent _ (set_system_user-IsConsistent k name s h) e
  Step-IsConsistent {s} (sets_email k email e) h =
      ensured IsConsistent _ (set_email-IsConsistent lower k email s h) e
  Step-IsConsistent {s} (deletes k caller x x' e) h =
      ensured (λ p. IsConsistent p.0) _ (delete_user-IsConsistent hook k caller s x h) e
  Step-IsConsistent {s} (sets_password k password hashed x x' e) h =
      ensured (λ p. IsConsistent p.0) _
        (admin_set_password-IsConsistent hook k password hashed s x h) e

  -- From the empty store on, after any sequence of the calls, restarts included, if an id that is
  -- drawn is not taken, nobody adds an account before the first is set up, and no other call changes
  -- an account between the checks of a call and the change that it makes, also where `setupOwner` or
  -- `addUser` waits in between for a password to be hashed: no two accounts share an id, a name or an
  -- address, once there is an account exactly one is the owner, and the file holds the accounts.
  pub Reach-IsConsistent : {s : AuthStore} → Reach s → IsConsistent s
  Reach-IsConsistent start = record { users = none-AreSound; saved = refl }
  Reach-IsConsistent (next r st) = Step-IsConsistent st (Reach-IsConsistent r)
