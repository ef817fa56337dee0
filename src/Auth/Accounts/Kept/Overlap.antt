-- ===== src/Auth/Accounts/Kept/Overlap.antt =====
-- `setupOwner` and `addUser` where other calls of apps/server/src/auth.ts run while they wait for the
-- hash of the password, and none of those changes an account.
use server_central.Prelude.{
  ℕ, String, true, false, List, [], Option, none, ok, ◌≡◌, refl, sym, ◌⊎◌, inl, inr, >>=-eq-ok,
  ensure, ensure-eq-ok,
}
use server_central.Prelude.Dict.{get}
use server_central.Roles.{RoleStore}
use server_central.Auth.{AuthStore, UserRecord, setup_completed}
use server_central.Auth.Sessions.Same.{IsConsistent, SameAccounts, same-IsConsistent}
use server_central.Auth.Accounts.{
  needs_setup, check_new_user, new_user, insert_user, check_owner, check_added, known_role_ids,
}
use server_central.Auth.Accounts.Kept.{insert_user-IsConsistent}
use server_central.Auth.Accounts.Kept.Calls.{no_accounts}
use server_central.Auth.Distinct.{HasOwner}

-- The checks were made at `s`, and the account is inserted at `t`.
insert_later :
    (lower : String → String) (rec : UserRecord) (s t : AuthStore)
    → SameAccounts s t
    → IsConsistent (insert_user lower rec s)
    → IsConsistent (insert_user lower rec t)
insert_later lower rec s t (u, f) h =
    same-IsConsistent (insert_user lower rec s) (rw u refl, rw u refl) h

earlier : (s t : AuthStore) → SameAccounts s t → IsConsistent t → IsConsistent s
earlier s t (u, f) h = same-IsConsistent t (sym u, sym f) h

pub setup_later-IsConsistent :
    (lower : String → String) (uuid hashed username password : String) (now : ℕ) (s t : AuthStore)
    (u : Unit {0})
    → check_owner lower username password s ≡ ok u
    → SameAccounts s t
    → get t.users uuid ≡ none
    → IsConsistent t
    → IsConsistent (insert_user lower (new_user lower uuid hashed username [] true none now) t)
unfolding check_owner needs_setup
setup_later-IsConsistent lower uuid hashed username password now s t u passed same free h =
    let (v, empty, rest) = >>=-eq-ok (ensure (needs_setup s) setup_completed) _ passed in
    insert_later lower _ s t same (
      insert_user-IsConsistent lower uuid hashed username password [] true none now s u
        (rw (sym same.0) free)
        (inl (no_accounts s.users (ensure-eq-ok setup_completed empty), refl)) (earlier s t same h)
        rest)

pub add_later-IsConsistent :
    (lower : String → String) (roles : RoleStore) (uuid hashed username password : String)
    (ids known : List String) (email : Option String) (now : ℕ) (s t : AuthStore)
    → needs_setup s ≡ false
    → check_added lower roles username password ids email s ≡ ok known
    → SameAccounts s t
    → get t.users uuid ≡ none
    → IsConsistent t
    → IsConsistent (insert_user lower (new_user lower uuid hashed username known false email now) t)
unfolding check_added needs_setup
add_later-IsConsistent lower roles uuid hashed username password ids known email now s t some_one
      passed same free h =
    let (k, found, rest) = >>=-eq-ok (known_role_ids roles ids) _ passed in
    let (u, checked, done) = >>=-eq-ok (check_new_user lower username password email s) _ rest in
    let old = earlier s t same h in
    insert_later lower _ s t same (
      insert_user-IsConsistent lower uuid hashed username password known false email now s u
        (rw (sym same.0) free) (inr (there old.users.owned, refl)) old checked)
  where
    there : (s.users ≡ []) ⊎ HasOwner s.users → HasOwner s.users
    there (inl e) = cc (rw e at some_one)
    there (inr p) = p
