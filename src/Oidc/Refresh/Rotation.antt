-- ===== src/Oidc/Refresh/Rotation.antt =====
-- Redeeming a token: each token is good for one exchange, and a second one ends the family.
use text.Mathlib.TextEquality.{eq_iff}
use text.Mathlib.TextPositions.{eq_refl}
use server_central.Prelude.{
  ℕ, ◌+◌, ◌-◌, ◌≤◌, String, false, not, Option, none, some, ◌≡◌, refl, ◌≢◌, inl, inr, arith, ◌===◌,
  ltb, Bool-cases, Option-cases, subst, sym, ap,
}
use server_central.Prelude.Dict.{get, put, keep, get-put, get-keep}
use server_central.Oidc.Refresh.{
  RefreshRecord, RefreshGrant, TokenStore, Rotated, unknown, reused, granted, refresh_ttl_ms,
  spent_ttl_ms, spent_before, drop_stale_tombstones, revoke_family, append, rotate, rotate_found,
  rotate_unspent,
}
use server_central.Oidc.Refresh.Revocation.{holds_any, delete_where-gone}

-- The record that `append` writes.
abbrev pub fresh_record : RefreshRecord → ℕ → RefreshRecord
fresh_record rec now = record {
  family_id = rec.family_id;
  user_id = rec.user_id;
  client_id = rec.client_id;
  scope = rec.scope;
  issued_at = now;
  expires_at = now + refresh_ttl_ms;
  used_at = none;
}

abbrev spend : RefreshRecord → ℕ → RefreshRecord
spend rec now = record rec { used_at = some now }

abbrev grant_of : RefreshRecord → RefreshGrant
grant_of rec = record {
  family_id = rec.family_id;
  user_id = rec.user_id;
  client_id = rec.client_id;
  scope = rec.scope;
}

-- What a granted exchange has found and what it leaves.
pub record IsExchange (digest : String → String) (token minted : String) (now : ℕ) (s : TokenStore)
    (g : RefreshGrant) (s' : TokenStore) : Type 0 where
  pub rec : RefreshRecord
  pub found : get s.tokens (digest token) ≡ some rec
  pub unspent : rec.used_at ≡ none
  pub in_time : now ≤ rec.expires_at
  pub grant : g ≡ grant_of rec
  pub successor : get s'.tokens (digest minted) ≡ some (fresh_record rec now)
  pub tombstone : get s'.tokens (digest token) ≡ some (spend rec now)

abbrev Exchanged :
    (String → String) → String → String → ℕ → TokenStore → Rotated → TokenStore → Type 0
Exchanged digest token minted now s unknown s' = Unit
Exchanged digest token minted now s reused s' = Unit
Exchanged digest token minted now s (granted g next) s' =
    (next ≡ minted) × IsExchange digest token minted now s g s'

module _ (digest : String → String) (token minted : String) (now : ℕ) (s : TokenStore)
    (rec : RefreshRecord) (found : get s.tokens (digest token) ≡ some rec)
    (unspent : rec.used_at ≡ none) (live : ltb rec.expires_at now ≡ false) where
  marked : TokenStore
  marked = record s { tokens = put s.tokens (digest token) (spend rec now) }

  after : TokenStore
  after =
      append digest rec.family_id
        (record { user_id = rec.user_id; client_id = rec.client_id; scope = rec.scope }) minted now
        marked

  -- The tombstone that was just made is not stale.
  tombstone_kept :
      digest minted ≢ digest token → get after.tokens (digest token) ≡ some (spend rec now)
  unfolding after append drop_stale_tombstones marked
  tombstone_kept ne =
      let at_put = get-put s.tokens (digest token) (digest token) (spend rec now) in
      let in_marked : get marked.tokens (digest token) ≡ some (spend rec now) =
        ground (arith, at_put, eq_refl (digest token)) in
      let kept =
        get-keep (λ k r. not (spent_before (now - spent_ttl_ms) r.used_at)) marked.tokens
          (digest token) (spend rec now) in_marked (ground arith) in
      ground (
        arith,
        kept,
        eq_iff (digest minted) (digest token),
        get-put (keep (λ k r. not (spent_before (now - spent_ttl_ms) r.used_at)) marked.tokens)
            (digest minted) (digest token) (fresh_record rec now),
      )

  exchange :
      digest minted ≢ digest token → IsExchange digest token minted now s (grant_of rec) after
  unfolding after append
  exchange ne = record {
    rec = rec;
    found = found;
    unspent = unspent;
    in_time = ground arith;
    grant = refl;
    successor = simp (get-put, eq_refl);
    tombstone = tombstone_kept ne;
  }

rotate_found-Exchanged :
    (digest : String → String) (token minted : String) (now : ℕ) (s : TokenStore)
    (o : Option RefreshRecord)
    → digest minted ≢ digest token
    → get s.tokens (digest token) ≡ o
    → Exchanged digest token minted now s
        (rotate_found digest (digest token) o minted now s).0
        (rotate_found digest (digest token) o minted now s).1
unfolding rotate_found rotate_unspent after marked
rotate_found-Exchanged digest token minted now s none ne g = tt
rotate_found-Exchanged digest token minted now s (some rec) ne g = elim (Option-cases rec.used_at) [
  | inr (used, u) ↦ rw (u, rotate_found) tt
  | inl u ↦
      rw (u, rotate_found)
        (elim (Bool-cases (ltb rec.expires_at now)) [
          | inl late ↦ rw (late, rotate_unspent) tt
          | inr live ↦
              rw (live, rotate_unspent) (refl, exchange digest token minted now s rec g u live ne)
        ])
]

-- A new token is taken not to have the presented one's digest. Then an exchange is granted only for
-- a stored token that is neither spent nor past its expiry, with the
-- grant of that token; the new token is stored for the same family, user, client and scope, good for
-- 60 days, and the presented one stays as a tombstone.
pub rotate-IsExchange :
    (digest : String → String) (token minted : String) (now : ℕ) (s : TokenStore) (g : RefreshGrant)
    (next : String)
    → digest minted ≢ digest token
    → (rotate digest token minted now s).0 ≡ granted g next
    → (next ≡ minted) × IsExchange digest token minted now s g (rotate digest token minted now s).1
unfolding rotate
rotate-IsExchange digest token minted now s g next ne e =
    subst (λ r. Exchanged digest token minted now s r (rotate digest token minted now s).1) e
      (rotate_found-Exchanged digest token minted now s _ ne refl)

rotate_spent :
    (digest : String → String) (token minted : String) (now : ℕ) (s : TokenStore)
    (rec : RefreshRecord) (used : ℕ)
    → get s.tokens (digest token) ≡ some rec
    → rec.used_at ≡ some used
    → rotate digest token minted now s ≡ (reused, revoke_family rec.family_id s)
unfolding rotate rotate_found
rotate_spent digest token minted now s rec used g u = rw (g, rotate_found, u)

-- A token is good for one exchange, if the new token has not its digest. Presented again in the next
-- call, at whatever time, it is reported as reused, and no token of its family is left, the
-- successor included.
pub rotate_twice :
    (digest : String → String) (token minted again : String) (now later : ℕ) (s : TokenStore)
    (g : RefreshGrant) (next : String)
    → digest minted ≢ digest token
    → (rotate digest token minted now s).0 ≡ granted g next
    → let second = rotate digest token again later (rotate digest token minted now s).1 in
      (second.0 ≡ reused) × (holds_any (λ r. r.family_id === g.family_id) second.1 ≡ false)
unfolding revoke_family
rotate_twice digest token minted again now later s g next ne e =
    let x = (rotate-IsExchange digest token minted now s g next ne e).1 in
    let s' = (rotate digest token minted now s).1 in
    let r = rotate_spent digest token again later s' (spend x.rec now) now (x.tombstone) refl in
    let gone = delete_where-gone (λ y. y.family_id === x.rec.family_id) s' in
    let family : x.rec.family_id ≡ g.family_id =
      ap (λ (y : RefreshGrant). y.family_id) (sym x.grant) in
    (
      ap (λ (p : Rotated × TokenStore). p.0) r,
      subst (λ f. holds_any (λ y. y.family_id === f) (rotate digest token again later s').1 ≡ false)
          family (rw r gone),
    )
