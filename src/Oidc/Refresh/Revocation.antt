-- ===== src/Oidc/Refresh/Revocation.antt =====
-- Revoking: what is gone afterwards, and what stays.
use text.Mathlib.TextEquality.{eq_iff}
use server_central.Prelude.{
  String, Bool, true, false, not, none, some, ◌≡◌, sym, ◌⊎◌, inl, inr, arith, ◌===◌, any,
  filter_none, any-filter-not, Bool-cases, Option-cases,
}
use server_central.Prelude.Dict.{get, keep, get-keep}
use server_central.Oidc.Refresh.{
  RefreshRecord, TokenStore, delete_where, revoke_family, revoke_for_user, revoke_for_client,
  revoke,
}

-- Some token of the store passes the test, spent ones counted.
abbrev pub holds_any : (RefreshRecord → Bool) → TokenStore → Bool
holds_any test s = any (λ e. test e.1) s.tokens

pub tokens-delete_where :
    (test : RefreshRecord → Bool) (s : TokenStore)
    → (delete_where test s).tokens ≡ keep (λ k r. not (test r)) s.tokens
unfolding delete_where
tokens-delete_where test s = elim (Bool-cases (any (λ e. test e.1) s.tokens)) [
  | inl some_go ↦ rw (some_go, delete_where)
  | inr none_go ↦ rw (none_go, delete_where) (sym (filter_none (λ e. test e.1) s.tokens none_go))
]

pub delete_where-gone :
    (test : RefreshRecord → Bool) (s : TokenStore) → holds_any test (delete_where test s) ≡ false
delete_where-gone test s = rw (tokens-delete_where test s) (any-filter-not (λ e. test e.1) s.tokens)

pub delete_where-keeps :
    (test : RefreshRecord → Bool) (s : TokenStore) (key : String) (r : RefreshRecord)
    → get s.tokens key ≡ some r
    → test r ≡ false
    → get (delete_where test s).tokens key ≡ some r
delete_where-keeps test s key r g t =
    rw (tokens-delete_where test s) (get-keep (λ k x. not (test x)) s.tokens key r g (rw t))

pub saved-delete_where :
    (test : RefreshRecord → Bool) (s : TokenStore)
    → s.file ≡ s.tokens
    → (delete_where test s).file ≡ (delete_where test s).tokens
unfolding delete_where
saved-delete_where test s h = ground arith

-- After an account's credentials are revoked the store holds no token of the account, spent or not,
-- and still every token of the others.
pub revoke_for_user_lem :
    (user_id : String) (s : TokenStore) (key : String) (r : RefreshRecord)
    → get s.tokens key ≡ some r
    → (holds_any (λ x. x.user_id === user_id) (revoke_for_user user_id s) ≡ false)
      × ((r.user_id ≡ user_id) ⊎ (get (revoke_for_user user_id s).tokens key ≡ some r))
unfolding revoke_for_user
revoke_for_user_lem user_id s key r g = (
  delete_where-gone (λ x. x.user_id === user_id) s,
  elim (Bool-cases (r.user_id === user_id)) [
    | inl e ↦ inl ((eq_iff r.user_id user_id).0 e)
    | inr e ↦ inr (delete_where-keeps (λ x. x.user_id === user_id) s key r g e)
  ],
)

-- The same for a client whose registration is deleted.
pub revoke_for_client_lem :
    (client_id : String) (s : TokenStore) (key : String) (r : RefreshRecord)
    → get s.tokens key ≡ some r
    → (holds_any (λ x. x.client_id === client_id) (revoke_for_client client_id s) ≡ false)
      × ((r.client_id ≡ client_id) ⊎ (get (revoke_for_client client_id s).tokens key ≡ some r))
unfolding revoke_for_client
revoke_for_client_lem client_id s key r g = (
  delete_where-gone (λ x. x.client_id === client_id) s,
  elim (Bool-cases (r.client_id === client_id)) [
    | inl e ↦ inl ((eq_iff r.client_id client_id).0 e)
    | inr e ↦ inr (delete_where-keeps (λ x. x.client_id === client_id) s key r g e)
  ],
)

-- Revoking a token by value takes its whole family and reports true; a token that is not known
-- reports false and changes nothing.
revoke_lem :
    (digest : String → String) (token : String) (s : TokenStore)
    → ((get s.tokens (digest token) ≡ none) × (revoke digest token s ≡ (false, s)))
      ⊎ ((r : RefreshRecord) × (get s.tokens (digest token) ≡ some r)
          × ((revoke digest token s).0 ≡ true)
          × (holds_any (λ x. x.family_id === r.family_id) (revoke digest token s).1 ≡ false))
unfolding revoke revoke_family
revoke_lem digest token s = elim (Option-cases (get s.tokens (digest token))) [
  | inl g ↦ inl (g, rw (g, revoke))
  | inr (r, g) ↦ inr (
    r,
    g,
    rw (g, revoke),
    rw (g, revoke) (delete_where-gone (λ x. x.family_id === r.family_id) s),
  )
]
