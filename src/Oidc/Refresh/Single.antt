-- ===== src/Oidc/Refresh/Single.antt =====
-- At most one token of a family is good at any time: the invariant of the store.
use server_central.Prelude.{
  ℕ, ◌+◌, ◌-◌, ◌≤◌, String, Bool, false, not, ◌&&◌, [], ◌∷◌, Option, none, some, ◌≡◌, refl, inl,
  inr, arith, if◌then◌else◌, ◌===◌, is_some, any, filter, Bool-cases, Option-cases, ltb,
}
use server_central.Prelude.Dict.{Dict, get, put, remove, keep}
use server_central.Oidc.Refresh.{
  RefreshRecord, Holder, TokenStore, refresh_ttl_ms, spent_ttl_ms, spent_before, delete_where,
  drop_stale_tombstones, revoke_family, append, rotate_found, rotate_unspent,
}
use server_central.Oidc.Refresh.Revocation.{tokens-delete_where}

-- A token of the family that was not spent yet.
abbrev is_good : String → RefreshRecord → Bool
is_good family r = r.family_id === family && not (is_some r.used_at)

abbrev pub one_if : Bool → ℕ
one_if b = if b then 1 else 0

unfoldable pub good_count : String → Dict RefreshRecord → ℕ
good_count family [] = 0
good_count family ((k, r) ∷ m) = one_if (is_good family r) + good_count family m

abbrev good_in : String → Option RefreshRecord → ℕ
good_in family none = 0
good_in family (some r) = one_if (is_good family r)

good_count-put :
    (family : String) (m : Dict RefreshRecord) (k : String) (r : RefreshRecord)
    → good_count family (put m k r) + good_in family (get m k)
      ≡ good_count family m + one_if (is_good family r)
unfolding good_count put get
good_count-put family [] k r = omega arith
good_count-put family ((j, x) ∷ m) k r = elim (Bool-cases (j === k)) [
  | inl same ↦ rw same (omega arith)
  | inr other ↦ rw other (omega (arith, good_count-put family m k r))
]

good_count-keep :
    (family : String) (p : String → RefreshRecord → Bool) (m : Dict RefreshRecord)
    → good_count family (keep p m) ≤ good_count family m
unfolding good_count filter
good_count-keep family p [] = omega arith
good_count-keep family p ((j, x) ∷ m) = elim (Bool-cases (p j x)) [
  | inl h ↦ rw h (omega (arith, good_count-keep family p m))
  | inr h ↦ rw h (omega (arith, good_count-keep family p m))
]

good_count-remove :
    (family : String) (m : Dict RefreshRecord) (k : String)
    → good_count family (remove m k) ≤ good_count family m
unfolding good_count remove
good_count-remove family [] k = omega arith
good_count-remove family ((j, x) ∷ m) k = elim (Bool-cases (j === k)) [
  | inl h ↦ rw h (omega (arith, good_count-remove family m k))
  | inr h ↦ rw h (omega (arith, good_count-remove family m k))
]

abbrev pub IsSingle : TokenStore → Type 0
IsSingle s = (family : String) → good_count family s.tokens ≤ 1

pub delete_where-IsSingle :
    (test : RefreshRecord → Bool) (s : TokenStore) → IsSingle s → IsSingle (delete_where test s)
delete_where-IsSingle test s h family =
    rw (tokens-delete_where test s)
      (omega (arith, h family, good_count-keep family (λ k r. not (test r)) s.tokens))

-- A fresh token of a family that has no good one.
pub append-IsSingle :
    (digest : String → String) (family_id : String) (who : Holder) (minted : String) (now : ℕ)
    (s : TokenStore)
    → ((family : String) → good_count family s.tokens + one_if (family_id === family) ≤ 1)
    → IsSingle (append digest family_id who minted now s)
unfolding append drop_stale_tombstones
append-IsSingle digest family_id who minted now s h family =
    let fresh : RefreshRecord = record {
      family_id = family_id;
      user_id = who.user_id;
      client_id = who.client_id;
      scope = who.scope;
      issued_at = now;
      expires_at = now + refresh_ttl_ms;
      used_at = none;
    } in
    let kept = keep (λ k r. not (spent_before (now - spent_ttl_ms) r.used_at)) s.tokens in
    let same : one_if (is_good family fresh) ≡ one_if (family_id === family) = ground arith in
    omega (
      arith,
      h family,
      same,
      good_count-put family kept (digest minted) fresh,
      good_count-keep family (λ k r. not (spent_before (now - spent_ttl_ms) r.used_at)) s.tokens,
    )

-- Marking a good token as spent makes room for one.
spent_room :
    (family : String) (m : Dict RefreshRecord) (key : String) (rec : RefreshRecord) (now : ℕ)
    → get m key ≡ some rec
    → rec.used_at ≡ none
    → good_count family m ≤ 1
    → good_count family (put m key (record rec { used_at = some now }))
        + one_if (rec.family_id === family)
      ≤ 1
spent_room family m key rec now g u h =
    let put_lem = good_count-put family m key (record rec { used_at = some now }) in
    let was : good_in family (get m key) ≡ one_if (rec.family_id === family) =
      rw (g, good_in) (ground arith) in
    let spent : one_if (is_good family (record rec { used_at = some now })) ≡ 0 = ground arith in
    omega (arith, h, put_lem, was, spent)

pub rotate_found-IsSingle :
    (digest : String → String) (key : String) (o : Option RefreshRecord) (minted : String) (now : ℕ)
    (s : TokenStore)
    → get s.tokens key ≡ o
    → IsSingle s
    → IsSingle (rotate_found digest key o minted now s).1
unfolding rotate_found rotate_unspent revoke_family
rotate_found-IsSingle digest key none minted now s g h = h
rotate_found-IsSingle digest key (some rec) minted now s g h = elim (Option-cases rec.used_at) [
  | inr (used, u) ↦ rw (u, rotate_found) (delete_where-IsSingle _ s h)
  | inl u ↦
      rw (u, rotate_found)
        (elim (Bool-cases (ltb rec.expires_at now)) [
          | inl late ↦
              rw (late, rotate_unspent)
                λ family. omega (arith, h family, good_count-remove family s.tokens key)
          | inr live ↦
              rw (live, rotate_unspent)
                (append-IsSingle digest rec.family_id _ minted now
                  (record s { tokens = put s.tokens key (record rec { used_at = some now }) })
                  λ family. spent_room family s.tokens key rec now g u (h family))
        ])
]

pub good_count_none :
    (family : String) (m : Dict RefreshRecord)
    → any (λ e. e.1.family_id === family) m ≡ false
    → good_count family m ≡ 0
unfolding good_count any
good_count_none family [] h = refl
good_count_none family ((k, r) ∷ m) h = ground (arith, good_count_none family m)
