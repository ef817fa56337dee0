-- ===== src/Oidc/Refresh.antt =====
-- apps/server/src/features/oidc/refresh.ts: refresh tokens with rotation and reuse detection. The
-- token that `mint()` draws, the family's `randomUUID()` and the time of the call are arguments, and
-- `digest`, SHA-256, is a parameter. `file` is what the JSON file holds; writes are taken to succeed.
mod Tests
pub mod Single
pub mod Reachable
pub mod Rotation
pub mod Revocation
use server_central.Prelude.{
  ℕ, ◌+◌, ◌-◌, ◌*◌, String, Bool, true, false, not, ◌&&◌, ◌||◌, List, [], ◌∷◌, map, Option, none,
  some, if◌then◌else◌, ◌===◌, ltb, leb, is_some, any, filter,
}
use server_central.Prelude.Dict.{Dict, get, put, remove, values, keep}

abbrev pub refresh_ttl_ms : ℕ
refresh_ttl_ms = 60 * 24 * 60 * 60 * 1000

abbrev pub spent_ttl_ms : ℕ
spent_ttl_ms = 7 * 24 * 60 * 60 * 1000

pub record RefreshRecord : Type 0 where
  pub family_id : String
  pub user_id : String
  pub client_id : String
  pub scope : String
  pub issued_at : ℕ
  pub expires_at : ℕ
  pub used_at : Option ℕ

pub record RefreshGrant : Type 0 where
  pub family_id : String
  pub user_id : String
  pub client_id : String
  pub scope : String

-- Whom a new chain is for.
pub record Holder : Type 0 where
  pub user_id : String
  pub client_id : String
  pub scope : String

pub record TokenStore : Type 0 where
  pub tokens : Dict RefreshRecord
  pub file : Dict RefreshRecord

pub data Rotated : Type 0 where
  unknown reused : Rotated
  granted : RefreshGrant → (next : String) → Rotated

abbrev persist : TokenStore → TokenStore
persist s = record s { file = s.tokens }

-- Spent, and before the cutoff.
abbrev spent_before : ℕ → Option ℕ → Bool
spent_before cutoff none = false
spent_before cutoff (some used) = ltb used cutoff

-- `usedAt + SPENT_TTL_MS < now`
abbrev spent_long_ago : ℕ → Option ℕ → Bool
spent_long_ago now none = false
spent_long_ago now (some used) = ltb (used + spent_ttl_ms) now

-- Each entry that passes the test is deleted, and the file written if there was one.
unfoldable pub delete_where : (RefreshRecord → Bool) → TokenStore → TokenStore
delete_where test s =
    let left = keep (λ k r. not (test r)) s.tokens in
    if any (λ e. test e.1) s.tokens then persist (record s { tokens = left }) else s

unfoldable pub prune_expired : ℕ → TokenStore → TokenStore
unfolding delete_where
prune_expired now = delete_where λ r. ltb r.expires_at now || spent_long_ago now r.used_at

-- In memory only.
unfoldable pub drop_stale_tombstones : ℕ → TokenStore → TokenStore
drop_stale_tombstones now s = record s {
  tokens = keep (λ k r. not (spent_before (now - spent_ttl_ms) r.used_at)) s.tokens;
}

unfoldable pub init : Option (Dict RefreshRecord) → ℕ → TokenStore
unfolding prune_expired
init none now = prune_expired now (record { tokens = []; file = [] })
init (some stored) now = prune_expired now (record { tokens = stored; file = stored })

unfoldable pub revoke_family : String → TokenStore → TokenStore
unfolding delete_where
revoke_family family_id = delete_where λ r. r.family_id === family_id

unfoldable pub revoke_for_user : String → TokenStore → TokenStore
unfolding delete_where
revoke_for_user user_id = delete_where λ r. r.user_id === user_id

unfoldable pub revoke_for_client : String → TokenStore → TokenStore
unfolding delete_where
revoke_for_client client_id = delete_where λ r. r.client_id === client_id

module _ (digest : String → String) where
  unfoldable pub append : String → Holder → (minted : String) → ℕ → TokenStore → TokenStore
  unfolding drop_stale_tombstones
  append family_id who minted now s =
      let kept = drop_stale_tombstones now s in
      persist (record kept {
        tokens = put kept.tokens (digest minted) (record {
          family_id = family_id;
          user_id = who.user_id;
          client_id = who.client_id;
          scope = who.scope;
          issued_at = now;
          expires_at = now + refresh_ttl_ms;
          used_at = none;
        });
      })

  unfoldable pub issue : (uuid : String) → Holder → (minted : String) → ℕ → TokenStore → TokenStore
  unfolding append
  issue uuid who minted now s = append uuid who minted now s

  unfoldable pub rotate_unspent :
      String → RefreshRecord → (minted : String) → ℕ → TokenStore → Rotated × TokenStore
  unfolding append
  rotate_unspent key rec minted now s =
      if ltb rec.expires_at now
      then (unknown, persist (record s { tokens = remove s.tokens key }))
      else (
        granted
            (record {
              family_id = rec.family_id;
              user_id = rec.user_id;
              client_id = rec.client_id;
              scope = rec.scope;
            })
            minted,
        append rec.family_id
            (record { user_id = rec.user_id; client_id = rec.client_id; scope = rec.scope }) minted
            now (record s { tokens = put s.tokens key (record rec { used_at = some now }) }),
      )

  unfoldable pub rotate_found :
      String → Option RefreshRecord → (minted : String) → ℕ → TokenStore → Rotated × TokenStore
  unfolding rotate_unspent revoke_family
  rotate_found key none minted now s = (unknown, s)
  rotate_found key (some rec) minted now s = elim rec.used_at [
    | some used ↦ (reused, revoke_family rec.family_id s)
    | none ↦ rotate_unspent key rec minted now s
  ]

  -- Redeem a token and issue its replacement.
  unfoldable pub rotate : (token minted : String) → ℕ → TokenStore → Rotated × TokenStore
  unfolding rotate_found
  rotate token minted now s = rotate_found (digest token) (get s.tokens (digest token)) minted now s

  -- Revoke by value, and the whole family with it; true if the token was known.
  unfoldable pub revoke : String → TokenStore → Bool × TokenStore
  unfolding revoke_family
  revoke token s = elim (get s.tokens (digest token)) [
    | none ↦ (false, s)
    | some rec ↦ (true, revoke_family rec.family_id s)
  ]

-- What `listForUser` shows of a family.
pub record AppGrant : Type 0 where
  pub family_id : String
  pub client_id : String
  pub scope : String
  pub issued_at : ℕ
  pub expires_at : ℕ

newest : Option RefreshRecord → RefreshRecord → Dict RefreshRecord → Dict RefreshRecord
newest none rec by_family = put by_family rec.family_id rec
newest (some seen) rec by_family =
    if ltb seen.issued_at rec.issued_at then put by_family rec.family_id rec else by_family

abbrev is_access : String → RefreshRecord → Bool
is_access user_id rec = rec.user_id === user_id && not (is_some rec.used_at)

collect : String → Dict RefreshRecord → List RefreshRecord → Dict RefreshRecord
unfolding newest
collect user_id by_family [] = by_family
collect user_id by_family (rec ∷ recs) =
    collect user_id
      (if is_access user_id rec
        then newest (get by_family rec.family_id) rec by_family
        else by_family)
      recs

-- `sort((a, b) => b.issuedAt - a.issuedAt)`, which is stable.
insert_by_age : AppGrant → List AppGrant → List AppGrant
insert_by_age g [] = g ∷ []
insert_by_age g (x ∷ xs) =
    if ltb g.issued_at x.issued_at then x ∷ insert_by_age g xs else g ∷ x ∷ xs

sort_by_age : List AppGrant → List AppGrant
unfolding insert_by_age
sort_by_age [] = []
sort_by_age (g ∷ gs) = insert_by_age g (sort_by_age gs)

abbrev to_grant : String × RefreshRecord → AppGrant
to_grant e = record {
  family_id = e.0;
  client_id = e.1.client_id;
  scope = e.1.scope;
  issued_at = e.1.issued_at;
  expires_at = e.1.expires_at;
}

unfoldable pub list_for_user : String → TokenStore → List AppGrant
unfolding collect sort_by_age
list_for_user user_id s = sort_by_age (map to_grant (collect user_id [] (values s.tokens)))
