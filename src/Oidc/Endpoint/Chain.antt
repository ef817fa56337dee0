-- ===== src/Oidc/Endpoint/Chain.antt =====
-- The chain of refresh tokens that a grant of apps/server/src/features/oidc/feature.ts starts.
use text.Mathlib.TextPositions.{eq_refl}
use server_central.Prelude.{
  String, true, false, Option, none, some, ◌≡◌, refl, ◌⊎◌, ◌+◌, ◌∙◌, Bool-cases, inl, inr,
}
use server_central.Prelude.Dict.{get, get-put}
use server_central.Auth.{UserInfo}
use server_central.Oidc.Clients.{OidcClient}
use server_central.Oidc.Refresh.{
  TokenStore, RefreshRecord, issue, append, drop_stale_tombstones, refresh_ttl_ms,
}
use server_central.Oidc.Claims.{has_scope}
use server_central.Oidc.Front.{Provider}
use server_central.Oidc.Endpoint.{Draws, start_chain, offline_access}

module _ (digest : String → String) (draws : Draws) where
  -- The refresh token of a scope that asks for one: the store keeps it, not spent, for that user and
  -- client. For any other scope there is none, and the store of them is as it was.
  abbrev pub Chain :
      UserInfo → OidcClient → String → Option String → TokenStore → TokenStore → Type 0
  Chain user client scope refresh_token s s' =
      ((has_scope scope offline_access ≡ false) × (refresh_token ≡ none) × (s' ≡ s))
      ⊎ ((has_scope scope offline_access ≡ true)
          × (refresh_token ≡ some draws.minted)
          × (rec : RefreshRecord) × (get s'.tokens (digest draws.minted) ≡ some rec)
          × (rec.user_id ≡ user.id)
          × (rec.client_id ≡ client.id)
          × (rec.scope ≡ scope)
          × (rec.used_at ≡ none))

  pub start_chain-clients :
      (user : UserInfo) (client : OidcClient) (scope : String) (p : Provider)
      → (start_chain digest draws user client scope p).1.clients ≡ p.clients
  unfolding start_chain
  start_chain-clients user client scope p = elim (Bool-cases (has_scope scope offline_access)) [
    | inl e ↦ rw e refl
    | inr e ↦ rw e refl
  ]

  -- The record of a token that starts a chain.
  abbrev first_record : UserInfo → OidcClient → String → RefreshRecord
  first_record user client scope = record {
    family_id = draws.uuid;
    user_id = user.id;
    client_id = client.id;
    scope = scope;
    issued_at = draws.now;
    expires_at = draws.now + refresh_ttl_ms;
    used_at = none;
  }

  issued_record :
      (user : UserInfo) (client : OidcClient) (scope : String) (s : TokenStore)
      → get
          (issue digest draws.uuid
            (record { user_id = user.id; client_id = client.id; scope = scope })
            draws.minted
            draws.now
            s).tokens
          (digest draws.minted)
        ≡ some (first_record user client scope)
  unfolding issue append
  issued_record user client scope s =
      get-put (drop_stale_tombstones draws.now s).tokens (digest draws.minted) (digest draws.minted)
        (first_record user client scope)
      ∙ rw (eq_refl (digest draws.minted)) refl

  pub start_chain-Chain :
      (user : UserInfo) (client : OidcClient) (scope : String) (p : Provider)
      → Chain user client scope
          (start_chain digest draws user client scope p).0
          p.refresh
          (start_chain digest draws user client scope p).1.refresh
  unfolding start_chain
  start_chain-Chain user client scope p = elim (Bool-cases (has_scope scope offline_access)) [
    | inl e ↦ rw e (
        inr (
          refl,
          refl,
          first_record user client scope,
          issued_record user client scope p.refresh,
          refl,
          refl,
          refl,
          refl,
        ))
    | inr e ↦ rw e (inl (refl, refl, refl))
  ]
