-- ===== src/Oidc/Refresh/Reachable.antt =====
-- The store over any run of its operations, restarts included.
use server_central.Prelude.{
  ℕ, ◌+◌, ◌≤◌, String, Bool, false, eq_iff, Option, none, some, ◌≡◌, refl, arith, ◌===◌, ltb,
  Bool-cases, Option-cases, inl, inr,
}
use server_central.Prelude.Dict.{get}
use server_central.Oidc.Refresh.{
  RefreshRecord, Holder, TokenStore, delete_where, prune_expired, init, revoke_family,
  revoke_for_user, revoke_for_client, append, issue, rotate, rotate_found, rotate_unspent, revoke,
}
use server_central.Oidc.Refresh.Revocation.{holds_any, saved-delete_where}
use server_central.Oidc.Refresh.Single.{
  IsSingle, good_count, good_count_none, one_if, delete_where-IsSingle, append-IsSingle,
  rotate_found-IsSingle,
}

-- The store is single, and the file holds what the store does.
pub record IsSound (s : TokenStore) : Type 0 where
  pub single : IsSingle s
  pub saved : s.file ≡ s.tokens

-- What can happen to the store: its operations, where a new chain takes an unused family id, and a
-- restart, which reads the file back.
pub data Step (digest : String → String) : TokenStore → TokenStore → Type 0 where
  issues :
      (s : TokenStore) (uuid : String) (who : Holder) (minted : String) (now : ℕ)
      → holds_any (λ r. r.family_id === uuid) s ≡ false
      → Step digest s (issue digest uuid who minted now s)
  rotates :
      (s : TokenStore) (token minted : String) (now : ℕ)
      → Step digest s (rotate digest token minted now s).1
  revokes : (s : TokenStore) (token : String) → Step digest s (revoke digest token s).1
  revokes_family : (s : TokenStore) (family_id : String) → Step digest s (revoke_family family_id s)
  revokes_user : (s : TokenStore) (user_id : String) → Step digest s (revoke_for_user user_id s)
  revokes_client :
      (s : TokenStore) (client_id : String) → Step digest s (revoke_for_client client_id s)
  restarts : (s : TokenStore) (now : ℕ) → Step digest s (init (some s.file) now)

pub data Reach (digest : String → String) (s : TokenStore) : TokenStore → Type 0 where
  here : Reach digest s s
  next : {t u : TokenStore} → Reach digest s t → Step digest t u → Reach digest s u

delete_where-IsSound :
    (test : RefreshRecord → Bool) (s : TokenStore) → IsSound s → IsSound (delete_where test s)
delete_where-IsSound test s h = record {
  single = delete_where-IsSingle test s h.single;
  saved = saved-delete_where test s h.saved;
}

rotate_found-saved :
    (digest : String → String) (key : String) (o : Option RefreshRecord) (minted : String) (now : ℕ)
    (s : TokenStore)
    → s.file ≡ s.tokens
    → (rotate_found digest key o minted now s).1.file
      ≡ (rotate_found digest key o minted now s).1.tokens
unfolding rotate_found rotate_unspent revoke_family append
rotate_found-saved digest key none minted now s h = h
rotate_found-saved digest key (some rec) minted now s h = elim (Option-cases rec.used_at) [
  | inr (used, u) ↦ rw (u, rotate_found) (saved-delete_where _ s h)
  | inl u ↦
      rw (u, rotate_found)
        (elim (Bool-cases (ltb rec.expires_at now)) [
          | inl late ↦ rw (late, rotate_unspent)
          | inr live ↦ rw (live, rotate_unspent)
        ])
]

issue-room :
    (s : TokenStore) (uuid family : String)
    → holds_any (λ r. r.family_id === uuid) s ≡ false
    → IsSingle s
    → good_count family s.tokens + one_if (uuid === family) ≤ 1
issue-room s uuid family f h = elim (Bool-cases (uuid === family)) [
  | inl e ↦
      let same = (eq_iff uuid family).0 e in
      rw e (omega (arith, good_count_none family s.tokens (rw same at f)))
  | inr e ↦ rw e (omega (arith, h family))
]

pub Step-IsSound :
    (digest : String → String) {s t : TokenStore} → Step digest s t → IsSound s → IsSound t
unfolding issue rotate revoke revoke_family revoke_for_user revoke_for_client init prune_expired
    append
Step-IsSound digest (issues s uuid who minted now f) h = record {
  single =
      append-IsSingle digest uuid who minted now s (λ family. issue-room s uuid family f h.single);
  saved = refl;
}
Step-IsSound digest (rotates s token minted now) h = record {
  single = rotate_found-IsSingle digest (digest token) _ minted now s refl h.single;
  saved = rotate_found-saved digest (digest token) _ minted now s h.saved;
}
Step-IsSound digest (revokes s token) h = elim (Option-cases (get s.tokens (digest token))) [
  | inl g ↦ rw (g, revoke) h
  | inr (r, g) ↦ rw (g, revoke) (delete_where-IsSound _ s h)
]
Step-IsSound digest (revokes_family s family_id) h = delete_where-IsSound _ s h
Step-IsSound digest (revokes_user s user_id) h = delete_where-IsSound _ s h
Step-IsSound digest (revokes_client s client_id) h = delete_where-IsSound _ s h
Step-IsSound digest (restarts s now) h =
    delete_where-IsSound _ _
      (record { single = λ family. rw h.saved (h.single family); saved = refl })

-- From a sound store on, whatever is called in whatever order, restarts included, if a new chain
-- takes an unused family id: every family has at most one token that can still be exchanged, and
-- the file holds what the memory does.
pub Reach-IsSound :
    (digest : String → String) {s t : TokenStore} → IsSound s → Reach digest s t → IsSound t
Reach-IsSound digest h here = h
Reach-IsSound digest h (next r st) = Step-IsSound digest st (Reach-IsSound digest h r)
