-- ===== src/Permission/Matching.antt =====
-- Laws of `permissionMatches` and of the checks that stand on it.

use text.Mathlib.TextPositions.{eq_refl}
use text.Mathlib.TextEquality.{eq_iff}
use server_central.Prelude.{
  String, Bool, true, false, not, every, every-of_includes, ◌||◌, List, [], ◌∷◌, ◌≡◌, refl, ◌⊎◌,
  inl, inr, ◌↔◌, ◌≢◌, ◌===◌, arith, includes, any, starts_with, drop_last, ends_with_wildcard,
  Bool-cases, and-eq-true, or-eq-true, ap,
}
use server_central.Prelude.Text.Prefix.{
  starts_with_trans, starts_with_total, starts_with-drop_last_self, starts_with_cases,
  ends_with_wildcard-drop_last, starts_with_single,
}
use server_central.Permission.Registry.{sensitive_permissions}
use server_central.Permission.Match.{permission_matches, has_permission, permission_overlaps}

-- How one node comes to match another, with the tests read off.
pub data Matches (held required : String) : Type 0 where
  same : held ≡ required → Matches held required
  everything : held ≡ "*" → Matches held required
  under :
      ends_with_wildcard held ≡ true
      → starts_with required (drop_last held) ≡ true
      → Matches held required

pub matches_sound : (h r : String) → permission_matches h r ≡ true → Matches h r
unfolding permission_matches
matches_sound h r e = elim (Bool-cases (h === r)) [
  | inl p ↦ same ((eq_iff h r).0 p)
  | inr p ↦ elim (Bool-cases (h === "*")) [
    | inl q ↦ everything ((eq_iff h "*").0 q)
    | inr q ↦ let (w, s) = and-eq-true (rw (p, q) at e) in under w s
  ]
]

pub matches_complete : (h r : String) → Matches h r → permission_matches h r ≡ true
unfolding permission_matches
matches_complete h r (same e) = ground (arith, (eq_iff h r).1 e)
matches_complete h r (everything e) = ground (arith, (eq_iff h "*").1 e)
matches_complete h r (under w s) = ground arith

wildcard_single : (h : String) → ends_with_wildcard h ≡ true → starts_with "*" (drop_last h) ≢ true
wildcard_single h w e = cc (starts_with_single h w)

-- A match of a wildcard against a wildcard carries over to what lies under the second.
under_trans :
    (a b c : String)
    → ends_with_wildcard a ≡ true
    → starts_with b (drop_last a) ≡ true
    → ends_with_wildcard b ≡ true
    → starts_with c (drop_last b) ≡ true
    → starts_with c (drop_last a) ≡ true
under_trans a b c wa sb wb sc = elim (starts_with_cases b (drop_last a) sb) [
  | inl e ↦ cc (ends_with_wildcard-drop_last a wa, ap ends_with_wildcard e)
  | inr s ↦ starts_with_trans c (drop_last b) (drop_last a) sc s
]

Matches-trans : {a b c : String} → Matches a b → Matches b c → Matches a c
Matches-trans (same e) n = rw e n
Matches-trans (everything e) n = everything e
Matches-trans {a} (under w s) (same e) = under w (rw (← e) s)
Matches-trans {a} (under w s) (everything e) = absurd (wildcard_single a w (rw e at s))
Matches-trans {a} {b} {c} (under w s) (under v t) = under w (under_trans a b c w s v t)

-- Matching is transitive: what a held node matches, it grants all of.
pub permission_matches_trans :
    (a b c : String)
    → permission_matches a b ≡ true
    → permission_matches b c ≡ true
    → permission_matches a c ≡ true
permission_matches_trans a b c h k =
    matches_complete a c (Matches-trans (matches_sound a b h) (matches_sound b c k))

pub permission_matches_refl : (a : String) → permission_matches a a ≡ true
permission_matches_refl a = matches_complete a a (same refl)

overlap_wildcards :
    (a b c : String)
    → ends_with_wildcard a ≡ true
    → starts_with c (drop_last a) ≡ true
    → ends_with_wildcard b ≡ true
    → starts_with c (drop_last b) ≡ true
    → Matches a b ⊎ Matches b a
overlap_wildcards a b c wa sa wb sb = elim (starts_with_total c (drop_last a) (drop_last b) sa sb) [
  | inl s ↦
      inr (
        under wb (starts_with_trans a (drop_last a) (drop_last b) (starts_with-drop_last_self a) s))
  | inr s ↦
      inl (
        under wa (starts_with_trans b (drop_last b) (drop_last a) (starts_with-drop_last_self b) s))
]

common : {a b c : String} → Matches a c → Matches b c → Matches a b ⊎ Matches b a
common (same e) n = inr (rw e n)
common (everything e) n = inl (everything e)
common (under w s) (same e) = inl (rw e (under w s))
common (under w s) (everything e) = inr (everything e)
common {a} {b} {c} (under w s) (under v t) = overlap_wildcards a b c w s v t

overlaps_of : {a b : String} → Matches a b ⊎ Matches b a → permission_overlaps a b ≡ true
unfolding permission_overlaps
overlaps_of {a} {b} (inl m) = ground (arith, matches_complete a b m)
overlaps_of {a} {b} (inr m) = ground (arith, matches_complete b a m)

-- Two patterns overlap exactly when some node exists that both match.
pub permission_overlaps_iff :
    (a b : String)
    → (permission_overlaps a b ≡ true)
      ↔ ((c : String) × (permission_matches a c ≡ true) × (permission_matches b c ≡ true))
unfolding permission_overlaps
permission_overlaps_iff a b = (
  λ h. elim (or-eq-true h) [
    | inl m ↦ (b, m, permission_matches_refl b)
    | inr m ↦ (a, permission_matches_refl a, m)
  ],
  λ h. overlaps_of (common (matches_sound a h.0 h.1) (matches_sound b h.0 h.2)),
)

-- What one list holds, another holds too.
abbrev pub Within : List String → List String → Type 0
Within xs ys = (a : String) → includes xs a ≡ true → includes ys a ≡ true

pub any-of_includes :
    (p : String → Bool) (xs : List String) (a : String)
    → includes xs a ≡ true
    → p a ≡ true
    → any p xs ≡ true
unfolding includes any
any-of_includes p [] a h e = cc
any-of_includes p (x ∷ xs) a h e = elim (Bool-cases (x === a)) [
  | inl s ↦ let q : p x ≡ true = rw ((eq_iff x a).0 s) e in ground arith
  | inr s ↦ ground (arith, any-of_includes p xs a)
]

pub any-witness :
    (p : String → Bool) (xs : List String)
    → any p xs ≡ true
    → (a : String) × (includes xs a ≡ true) × (p a ≡ true)
unfolding includes any
any-witness p [] h = cc
any-witness p (x ∷ xs) h = elim (Bool-cases (p x)) [
  | inl e ↦ (x, ground (arith, eq_refl x), e)
  | inr e ↦ let (a, i, q) = any-witness p xs (ground arith) in (a, ground arith, q)
]

-- More grants never take a permission away: there are no negative entries.
pub has_permission_mono :
    (held more : List String) (required : String)
    → Within held more
    → has_permission held required ≡ true
    → has_permission more required ≡ true
unfolding has_permission
has_permission_mono held more required w h =
    elim (Bool-cases (includes sensitive_permissions required)) [
      | inl s ↦ rw s (w required (rw s at h))
      | inr s ↦
          let (a, i, q) = any-witness (λ x. permission_matches x required) held (rw s at h) in
          rw s (any-of_includes (λ x. permission_matches x required) more a (w a i) q)
    ]

abbrev pub IsWildcard : String → Type 0
IsWildcard node = (ends_with_wildcard node ≡ true) ⊎ (node ≡ "*")

sensitive_concrete :
    every (λ s. not (ends_with_wildcard s || s === "*")) sensitive_permissions ≡ true
unfolding sensitive_permissions every ends_with_wildcard
sensitive_concrete = refl

IsWildcard-insensitive : (s : String) → IsWildcard s → includes sensitive_permissions s ≢ true
IsWildcard-insensitive s w i =
    let q =
      every-of_includes (λ s. not (ends_with_wildcard s || s === "*")) sensitive_permissions s
        sensitive_concrete i in
    elim w [ inl e ↦ ground arith | inr e ↦ ground (arith, (eq_iff s "*").1 e) ]

-- No wildcard reaches a sensitive node: a list of wildcards alone, `*` among them, holds none.
pub has_permission_sensitive :
    (held : List String) (required : String)
    → includes sensitive_permissions required ≡ true
    → ((a : String) → includes held a ≡ true → IsWildcard a)
    → has_permission held required ≡ false
unfolding has_permission
has_permission_sensitive held required s wild = elim (Bool-cases (includes held required)) [
  | inl i ↦ absurd (IsWildcard-insensitive required (wild required i) s)
  | inr n ↦ rw s n
]
