-- ===== src/Auth/Sessions/Same.antt =====
-- The calls on sessions leave the accounts alone.
use server_central.Prelude.{
  ℕ, String, ◌&&◌, Option, none, some, Ensures, ◌≡◌, refl, sym, ◌∙◌, inl, inr, arith, ◌===◌,
  Bool-cases, same_option, is_empty, find,
}
use server_central.Prelude.Dict.{get}
use server_central.Roles.{RoleStore}
use server_central.Auth.{UserRecord, SessionRecord, AuthStore, is_expired}
use server_central.Auth.Sessions.{
  logout, logout_token, authenticate, authenticate_session, recognise, revoke_session, revoke_entry,
  drop_sessions,
}
use server_central.Auth.Distinct.{AreSound}

-- The accounts are sound, and the file holds them.
pub record IsConsistent (s : AuthStore) : Type 0 where
  pub users : AreSound s.users
  pub saved : s.users_file ≡ s.users

-- A call that leaves the accounts alone.
abbrev pub SameAccounts : AuthStore → AuthStore → Type 0
SameAccounts s s' = (s'.users ≡ s.users) × (s'.users_file ≡ s.users_file)

pub same-IsConsistent :
    (s : AuthStore) {s' : AuthStore} → SameAccounts s s' → IsConsistent s → IsConsistent s'
same-IsConsistent s (u, f) h = record { users = rw u h.users; saved = f ∙ h.saved ∙ sym u }

pub logout-same : (token : Option String) (s : AuthStore) → SameAccounts s (logout token s)
unfolding logout logout_token
logout-same none s = (refl, refl)
logout-same (some token) s = ground arith

pub authenticate-same :
    (roles : RoleStore) (token : Option String) (now : ℕ) (s : AuthStore)
    → SameAccounts s (authenticate roles token now s).1
unfolding authenticate authenticate_session recognise
authenticate-same roles none now s = (refl, refl)
authenticate-same roles (some token) now s = elim (Bool-cases (is_empty token)) [
  | inl e ↦ rw e (refl, refl)
  | inr e ↦ rw e (of_session (get s.sessions token))
]
  where
    of_user :
        (session : SessionRecord) (o : Option UserRecord)
        → SameAccounts s (recognise roles token session o now s).1
    of_user session none = (refl, refl)
    of_user session (some rec) = (refl, refl)

    of_session :
        (o : Option SessionRecord) → SameAccounts s (authenticate_session roles token o now s).1
    of_session none = (refl, refl)
    of_session (some session) = elim (Bool-cases (is_expired now session)) [
      | inl e ↦ rw (e, authenticate_session) (refl, refl)
      | inr e ↦ rw (e, authenticate_session) (of_user session (get s.users session.user_id))
    ]

revoke_entry-same :
    (e : Option (String × SessionRecord)) (current : Option String) (s : AuthStore)
    → Ensures (SameAccounts s) (revoke_entry e current s)
unfolding revoke_entry
revoke_entry-same none current s = tt
revoke_entry-same (some (token, x)) current s =
    elim (Bool-cases (same_option (some token) current)) [
      | inl own ↦ rw (own, revoke_entry) tt
      | inr other ↦ rw (other, revoke_entry) (refl, refl)
    ]

pub drop_sessions-same :
    (user_id : String) (s : AuthStore) → SameAccounts s (drop_sessions user_id s)
unfolding drop_sessions
drop_sessions-same user_id s = ground arith

pub revoke_session-same :
    (user_id id : String) (current : Option String) (s : AuthStore)
    → Ensures (SameAccounts s) (revoke_session user_id id current s)
unfolding revoke_session
revoke_session-same user_id id current s =
    revoke_entry-same (find (λ e. e.1.user_id === user_id && e.1.id === id) s.sessions) current s
