-- ===== src/Auth/Accounts/Kept.antt =====
-- What the checks on an account's changes keep, once the account is looked up.
pub mod Calls
pub mod Overlap
use text.Mathlib.TextEquality.{eq_iff}
use server_central.Prelude.{
  ℕ, String, Bool, true, false, not, ◌&&◌, List, [], ◌∷◌, Option, none, some, ok, Ensures,
  Ensures-bind, ensure, Ensures-ensure, ensured, ensure-eq-ok, >>=-eq-ok, ◌≡◌, refl, sym, ◌∙◌, ◌⊎◌,
  inl, inr, arith, ◌==◌, ◌===◌, any, Option-cases, same_option, length, length16, leb, is_empty,
}
use text.Mathlib.TextPositions.{eq_refl}
use server_central.Prelude.Dict.{Dict, get, remove, values, All-get}
use server_central.Prelude.Dict.Injective.{any-values-get}
use server_central.Prelude.Clean.{clean}
use server_central.Roles.{RoleStore}
use server_central.Auth.{
  UserRecord, AuthStore, email_taken, owner_undeletable, own_account, setup_completed,
  username_required, username_taken, password_too_short, UserInfo, persist_users,
}
use server_central.Auth.Sessions.Same.{IsConsistent, same-IsConsistent, drop_sessions-same}
use server_central.Auth.Sessions.{create_session, delete_sessions_for_user}
use server_central.Auth.Checks.{assert_email_shape, assert_system_username}
use server_central.Auth.Accounts.{
  trimmed_name, needs_setup, check_extra, normalize_username, normalize_email,
  assert_email_available, checked_email, changed, create_user, check_new_user, new_user,
  insert_user, setup_owner, add_user, known_role_ids, set_email, set_email_of, set_user_roles,
  set_user_roles_of, set_permissions, set_permissions_of, set_system_user, set_system_user_of,
  delete_user, admin_set_password,
}
use server_central.Auth.Distinct.{
  Entry, HasOwner, changed-AreSound, same_email, added-AreSound, removed-AreSound,
}

-- What the checks on a new address say of the accounts that are there.
available :
    (address : String) (except : Option String) (s : AuthStore) (k : String) (w : UserRecord)
    → assert_email_available address except s ≡ ok tt
    → get s.users k ≡ some w
    → w.email ≡ some address
    → same_option (some w.id) except ≡ true
unfolding assert_email_available
available address except s k w a g e =
    let (u, shape, rest) = >>=-eq-ok (assert_email_shape address) _ a in
    let free : any (λ x. not (same_option (some x.id) except) && same_option x.email (some address))
          (values s.users)
        ≡ false =
      ground (arith, ensure-eq-ok email_taken rest) in
    let no =
      any-values-get
        (λ x. not (same_option (some x.id) except) && same_option x.email (some address)) s.users k
        w free g in
    let here : same_option w.email (some address) ≡ true = rw e (eq_refl address) in ground arith

changed-IsConsistent :
    (k : String) (r r' : UserRecord) (s : AuthStore)
    → get s.users k ≡ some r
    → (r'.id ≡ r.id) × (r'.username ≡ r.username) × (r'.is_owner ≡ r.is_owner) × (r'.role ≡ r.role)
    → r'.email ≡ r.email
    → IsConsistent s
    → IsConsistent (changed k r' s)
changed-IsConsistent k r r' s g same e h = record {
  users = changed-AreSound s.users k r r' g same (same_email s.users k r r' g e h.users) h.users;
  saved = refl;
}

set_user_roles_of-IsConsistent :
    (roles : RoleStore) (o : Option UserRecord) (k : String) (ids : List String) (s : AuthStore)
    → get s.users k ≡ o
    → IsConsistent s
    → Ensures IsConsistent (set_user_roles_of roles o k ids s)
unfolding set_user_roles_of
set_user_roles_of-IsConsistent roles none k ids s g h = tt
set_user_roles_of-IsConsistent roles (some r) k ids s g h =
    Ensures-ensure IsConsistent (not r.is_owner) _ _ λ t.
      Ensures-bind IsConsistent (known_role_ids roles ids) _
        λ known e. changed-IsConsistent k r _ s g (refl, refl, refl, refl) refl h

set_permissions_of-IsConsistent :
    (o : Option UserRecord) (k : String) (nodes : List String) (s : AuthStore)
    → get s.users k ≡ o
    → IsConsistent s
    → Ensures IsConsistent (set_permissions_of o k nodes s)
unfolding set_permissions_of
set_permissions_of-IsConsistent none k nodes s g h = tt
set_permissions_of-IsConsistent (some r) k nodes s g h =
    Ensures-bind IsConsistent (clean check_extra [] nodes) _
      λ cleaned e. changed-IsConsistent k r _ s g (refl, refl, refl, refl) refl h

set_system_user_of-IsConsistent :
    (o : Option UserRecord) (k : String) (name : Option String) (s : AuthStore)
    → get s.users k ≡ o
    → IsConsistent s
    → Ensures IsConsistent (set_system_user_of o k name s)
unfolding set_system_user_of
set_system_user_of-IsConsistent none k name s g h = tt
set_system_user_of-IsConsistent (some r) k none s g h =
    changed-IsConsistent k r _ s g (refl, refl, refl, refl) refl h
set_system_user_of-IsConsistent (some r) k (some name) s g h =
    Ensures-bind IsConsistent (assert_system_username name) _
      λ u e. changed-IsConsistent k r _ s g (refl, refl, refl, refl) refl h

set_email_of-IsConsistent :
    (lower : String → String) (o : Option UserRecord) (k : String) (email : Option String)
    (s : AuthStore)
    → get s.users k ≡ o
    → IsConsistent s
    → Ensures IsConsistent (set_email_of lower o k email s)
unfolding set_email_of
set_email_of-IsConsistent lower none k email s g h = tt
set_email_of-IsConsistent lower (some r) k none s g h = record {
  users = changed-AreSound s.users k r _ g (refl, refl, refl, refl) (λ j w x gj ew er. cc) h.users;
  saved = refl;
}
set_email_of-IsConsistent lower (some r) k (some address) s g h =
    Ensures-bind IsConsistent (assert_email_available address (some k) s) _ λ u e.
      let sound =
        changed-AreSound s.users k r _ g (refl, refl, refl, refl)
          (λ j w x gj ew er. own address u j w x gj ew e er) h.users in
      record { users = sound; saved = refl }
  where
    own :
        (a : String) (u : Unit {0}) (j : String) (w : UserRecord) (x : String)
        → get s.users j ≡ some w
        → w.email ≡ some x
        → assert_email_available a (some k) s ≡ ok u
        → ◌≡◌ {A = Option String} (some a) (some x)
        → k ≡ j
    own a u j w x gj ew e er =
        sym ((eq_iff w.id k).0 (available a (some k) s j w e gj (ew ∙ sym er)))
        ∙ (All-get Entry s.users j w h.users.entries gj).0

-- The account that is inserted, if the checks passed on the same accounts.
pub insert_user-IsConsistent :
    (lower : String → String) (uuid hashed username password : String) (ids : List String)
    (is_owner : Bool) (email : Option String) (now : ℕ) (s : AuthStore) (u : Unit {0})
    → get s.users uuid ≡ none
    → ((s.users ≡ []) × (is_owner ≡ true)) ⊎ (HasOwner s.users × (is_owner ≡ false))
    → IsConsistent s
    → check_new_user lower username password email s ≡ ok u
    → IsConsistent
        (insert_user lower (new_user lower uuid hashed username ids is_owner email now) s)
unfolding check_new_user
insert_user-IsConsistent lower uuid hashed username password ids is_owner email now s u free o h
      passed =
    let (u1, named, rest) =
      >>=-eq-ok (ensure (not (is_empty (normalize_username lower username))) username_required) _
        passed in
    let (u2, long, rest) =
      >>=-eq-ok (ensure (leb 8 (length16 password)) password_too_short) _ rest in
    let (u3, unused, e) =
      >>=-eq-ok
        (ensure (not (any (λ x. x.username === normalize_username lower username) (values s.users)))
          username_taken)
        _ rest in
    let new = ensure-eq-ok username_taken unused in
    let sound =
      added-AreSound s.users _ free refl (ground (arith, new))
        (λ j w x gj ew er. fresh_at (normalize_email lower email) u j w x gj ew e er) o h.users in
    record { users = sound; saved = refl }
  where
    fresh_at :
        (o : Option String) (u : Unit {0}) (j : String) (w : UserRecord) (x : String)
        → get s.users j ≡ some w
        → w.email ≡ some x
        → checked_email o s ≡ ok u
        → o ≡ some x
        → uuid ≡ j
    fresh_at none u j w x gj ew e er = cc
    fresh_at (some a) u j w x gj ew e er = cc (available a none s j w e gj (ew ∙ sym er))

pub create_user-IsConsistent :
    (lower : String → String) (roles : RoleStore) (uuid hashed username password : String)
    (ids : List String) (is_owner : Bool) (email : Option String) (now : ℕ) (s : AuthStore)
    → get s.users uuid ≡ none
    → ((s.users ≡ []) × (is_owner ≡ true)) ⊎ (HasOwner s.users × (is_owner ≡ false))
    → IsConsistent s
    → Ensures
        (λ p. IsConsistent p.1)
        (create_user lower roles uuid hashed username password ids is_owner email now s)
unfolding create_user
create_user-IsConsistent lower roles uuid hashed username password ids is_owner email now s free o
      h =
    Ensures-bind (λ p. IsConsistent p.1) (check_new_user lower username password email s) _
      λ u e.
        insert_user-IsConsistent lower uuid hashed username password ids is_owner email now s u free
          o h e
