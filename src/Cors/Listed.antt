-- ===== src/Cors/Listed.antt =====
-- The list of origins that apps/server/src/cors.ts resolves the configuration to.
use server_central.Prelude.{
  String, true, List, [], ◌∷◌, Option, none, some, ◌≡◌, ◌↔◌, ◌⊎◌, inl, inr, refl, sym, subst, ap,
  includes, includes-append, eq_iff, arith, Bool-cases, or-eq-true,
}
use server_central.Prelude.Clean.{push_checked}
use server_central.Cors.{normalized, push_entries, origin_of_primary, resolve_allowed_origins}

pub some_inj : {a b : String} → ◌≡◌ {A = Option String} (some a) (some b) → a ≡ b
some_inj h = cc

includes-push_checked :
    (out : List String) (o : Option String) (x : String)
    → includes (push_checked out o) x ≡ true ↔ (includes out x ≡ true) ⊎ (o ≡ some x)
unfolding includes
includes-push_checked out none x = ((λ h. inl h), (λ h. elim h [ inl e ↦ e | inr e ↦ cc ]))
includes-push_checked out (some y) x = elim (Bool-cases (includes out y)) [
  | inl old ↦ rw old (
    (λ h. inl h),
    (λ h. elim h [ inl e ↦ e | inr e ↦ subst (λ z. includes out z ≡ true) (some_inj e) old ]),
  )
  | inr new ↦
      rw (new, includes-append out (y ∷ []) x)
        (
          (λ h. elim (or-eq-true h) [
            | inl e ↦ inl e
            | inr e ↦ inr (ap some ((eq_iff y x).0 (ground arith)))
          ]),
          (λ h. elim h [
            | inl e ↦ ground arith
            | inr e ↦ ground (arith, (eq_iff y x).1 (some_inj e))
          ]),
        )
]

-- An entry of the configuration is read as this one.
abbrev pub IsConfigured : (String → Option String) → List String → String → Type 0
IsConfigured url_origin configured x =
    (entry : String) × (includes configured entry ≡ true) × (normalized url_origin entry ≡ some x)

later :
    (url_origin : String → Option String) (entry : String) (rest : List String) (x : String)
    → IsConfigured url_origin rest x
    → IsConfigured url_origin (entry ∷ rest) x
unfolding includes
later url_origin entry rest x (e, h, n) = (e, ground arith, n)

includes-push_entries :
    (url_origin : String → Option String) (out configured : List String) (x : String)
    → includes (push_entries url_origin out configured) x ≡ true
      ↔ (includes out x ≡ true) ⊎ IsConfigured url_origin configured x
unfolding push_entries includes
includes-push_entries url_origin out [] x =
    ((λ h. inl h), (λ h. elim h [ inl e ↦ e | inr (e, h, n) ↦ cc ]))
includes-push_entries url_origin out (entry ∷ rest) x =
    let pushed = includes-push_checked out (normalized url_origin entry) x in
    let more =
      includes-push_entries url_origin (push_checked out (normalized url_origin entry)) rest x in
    (
      (λ h. elim (more.0 h) [
        | inl e ↦ elim (pushed.0 e) [
          | inl old ↦ inl old
          | inr new ↦ inr (entry, ground (arith, (eq_iff entry entry).1 refl), new)
        ]
        | inr c ↦ inr (later url_origin entry rest x c)
      ]),
      (λ h. elim h [
        | inl old ↦ more.1 (inl (pushed.1 (inl old)))
        | inr (e, i, n) ↦ elim (or-eq-true i) [
          | inl this ↦ more.1 (
              inl (
                pushed.1 (
                  inr (
                    subst (λ z. normalized url_origin z ≡ some x) (sym ((eq_iff entry e).0 this))
                      n))))
          | inr that ↦ more.1 (inr (e, that, n))
        ]
      ]),
    )

-- An origin that is configured, or that of the primary URL.
abbrev pub IsListed : (String → Option String) → List String → Option String → String → Type 0
IsListed url_origin configured primary_url x =
    IsConfigured url_origin configured x ⊎ (origin_of_primary url_origin primary_url ≡ some x)

-- The list of the origins has those that are configured and that of the primary URL, and no other.
pub resolve_allowed_origins_iff :
    (url_origin : String → Option String) (configured : List String) (primary_url : Option String)
    (x : String)
    → includes (resolve_allowed_origins url_origin configured primary_url) x ≡ true
      ↔ IsListed url_origin configured primary_url x
unfolding resolve_allowed_origins includes
resolve_allowed_origins_iff url_origin configured primary_url x =
    let entries = includes-push_entries url_origin [] configured x in
    let all =
      includes-push_checked (push_entries url_origin [] configured)
        (origin_of_primary url_origin primary_url) x in
    (
      (λ h. elim (all.0 h) [
        | inl e ↦ elim (entries.0 e) [ inl none_yet ↦ cc | inr c ↦ inl c ]
        | inr p ↦ inr p
      ]),
      (λ h. elim h [ inl c ↦ all.1 (inl (entries.1 (inr c))) | inr p ↦ all.1 (inr p) ]),
    )
