-- ===== src/Auth/Accounts/Kept/Calls.antt =====
-- What each method of `AuthStore` on accounts keeps.
use server_central.Prelude.{
  ℕ, String, true, false, not, List, [], ◌∷◌, Option, none, Ensures, Ensures-bind, Ensures-ensure,
  ensured, ◌≡◌, refl, ◌⊎◌, inl, inr, arith, ◌==◌, ◌===◌, Option-cases, length, length16, leb,
}
use server_central.Prelude.Dict.{Dict, get, remove}
use server_central.Roles.{RoleStore}
use server_central.Auth.{
  UserRecord, AuthStore, UserInfo, persist_users, password_too_short, owner_undeletable,
  own_account, setup_completed,
}
use server_central.Auth.Sessions.Same.{IsConsistent, same-IsConsistent, drop_sessions-same}
use server_central.Auth.Sessions.{create_session, delete_sessions_for_user}
use server_central.Auth.Accounts.{
  trimmed_name, needs_setup, normalize_email, changed, create_user, setup_owner, add_user,
  known_role_ids, set_email, set_user_roles, set_permissions, set_system_user, delete_user,
  admin_set_password,
}
use server_central.Auth.Distinct.{HasOwner, removed-AreSound}
use server_central.Auth.Accounts.Kept.{
  changed-IsConsistent, set_user_roles_of-IsConsistent, set_permissions_of-IsConsistent,
  set_system_user_of-IsConsistent, set_email_of-IsConsistent, create_user-IsConsistent,
}

pub set_user_roles-IsConsistent :
    (roles : RoleStore) (k : String) (ids : List String) (s : AuthStore)
    → IsConsistent s
    → Ensures IsConsistent (set_user_roles roles k ids s)
unfolding set_user_roles
set_user_roles-IsConsistent roles k ids s h =
    set_user_roles_of-IsConsistent roles (get s.users k) k ids s refl h

pub set_permissions-IsConsistent :
    (k : String) (nodes : List String) (s : AuthStore)
    → IsConsistent s
    → Ensures IsConsistent (set_permissions k nodes s)
unfolding set_permissions
set_permissions-IsConsistent k nodes s h =
    set_permissions_of-IsConsistent (get s.users k) k nodes s refl h

pub set_system_user-IsConsistent :
    (k : String) (name : Option String) (s : AuthStore)
    → IsConsistent s
    → Ensures IsConsistent (set_system_user k name s)
unfolding set_system_user
set_system_user-IsConsistent k name s h =
    set_system_user_of-IsConsistent (get s.users k) k (trimmed_name name) s refl h

pub set_email-IsConsistent :
    (lower : String → String) (k : String) (email : Option String) (s : AuthStore)
    → IsConsistent s
    → Ensures IsConsistent (set_email lower k email s)
unfolding set_email
set_email-IsConsistent lower k email s h =
    set_email_of-IsConsistent lower (get s.users k) k (normalize_email lower email) s refl h

-- The first account is set up only where there is none; others are added where there is one.
pub no_accounts : (m : Dict UserRecord) → (length m == 0) ≡ true → m ≡ []
no_accounts [] h = refl
no_accounts (e ∷ m) h = ground arith

pub setup_owner-IsConsistent :
    (lower : String → String) (roles : RoleStore)
    (uuid hashed username password token session : String) (ip agent : Option String) (now : ℕ)
    (s : AuthStore)
    → get s.users uuid ≡ none
    → IsConsistent s
    → Ensures
        (λ p. IsConsistent p.1)
        (setup_owner lower roles uuid hashed username password token session ip agent now s)
unfolding setup_owner needs_setup create_session
setup_owner-IsConsistent lower roles uuid hashed username password token session ip agent now s free
      h =
    Ensures-ensure Post (length s.users == 0) setup_completed _ λ empty.
      Ensures-bind Post (create_user lower roles uuid hashed username password [] true none now s) _
        λ made e.
          let kept =
            ensured (λ p. IsConsistent p.1)
              (create_user lower roles uuid hashed username password [] true none now s)
              (create_user-IsConsistent lower roles uuid hashed username password [] true none now s
                free (inl (no_accounts s.users empty, refl)) h)
              e in
          record { users = kept.users; saved = kept.saved }
  where
    Post : (String × UserInfo) × AuthStore → Type 0
    Post p = IsConsistent p.1

pub add_user-IsConsistent :
    (lower : String → String) (roles : RoleStore) (uuid hashed username password : String)
    (ids : List String) (email : Option String) (now : ℕ) (s : AuthStore)
    → get s.users uuid ≡ none
    → needs_setup s ≡ false
    → IsConsistent s
    → Ensures
        (λ p. IsConsistent p.1)
        (add_user lower roles uuid hashed username password ids email now s)
unfolding add_user needs_setup
add_user-IsConsistent lower roles uuid hashed username password ids email now s free some_one h =
    Ensures-bind (λ p. IsConsistent p.1) (known_role_ids roles ids) _
      λ known e.
        create_user-IsConsistent lower roles uuid hashed username password known false email now s
          free (inr (there h.users.owned, refl)) h
  where
    there : (s.users ≡ []) ⊎ HasOwner s.users → HasOwner s.users
    there (inl e) = cc (rw e at some_one)
    there (inr p) = p

module _ {H : Type 0} (hook : String → H → H) where
  pub delete_user-IsConsistent :
      (k caller : String) (s : AuthStore) (x : H)
      → IsConsistent s
      → Ensures (λ p. IsConsistent p.0) (delete_user hook k caller (s, x))
  unfolding delete_user delete_sessions_for_user
  delete_user-IsConsistent k caller s x h = elim (Option-cases (get s.users k)) [
    | inl g ↦ rw (g, delete_user) h
    | inr (r, g) ↦
        rw (g, delete_user)
          (Ensures-ensure (λ p. IsConsistent p.0) (not r.is_owner) owner_undeletable _
            λ t.
              Ensures-ensure (λ p. IsConsistent p.0) (not (k === caller)) own_account _
                λ u.
                  same-IsConsistent (persist_users (record s { users = remove s.users k }))
                    (drop_sessions-same k _)
                    (record {
                      users = removed-AreSound s.users k r g (ground (arith, t)) h.users;
                      saved = refl;
                    }))
  ]

  pub admin_set_password-IsConsistent :
      (k password hashed : String) (s : AuthStore) (x : H)
      → IsConsistent s
      → Ensures (λ p. IsConsistent p.0) (admin_set_password hook k password hashed (s, x))
  unfolding admin_set_password delete_sessions_for_user
  admin_set_password-IsConsistent k password hashed s x h = elim (Option-cases (get s.users k)) [
    | inl g ↦ rw (g, admin_set_password) tt
    | inr (r, g) ↦
        rw (g, admin_set_password)
          (Ensures-ensure (λ p. IsConsistent p.0) (leb 8 (length16 password)) password_too_short _
            λ t.
              same-IsConsistent (changed k (record r { password_hash = hashed }) s)
                (drop_sessions-same k _)
                (changed-IsConsistent k r _ s g (refl, refl, refl, refl) refl h))
  ]
