-- ===== src/Cors/Foreign.antt =====
-- The origins that apps/server/src/cors.ts lets through.
use server_central.Prelude.{
  String, true, List, [], ◌∷◌, ◌++◌, Option, none, some, ◌≡◌, ◌↔◌, ◌⊎◌, inl, inr, refl, sym, subst,
  ap, ◌∙◌, eq_iff, any, arith, Option-cases, or-eq-true, same_option,
}
use server_central.Cors.{
  truthy, resolve_allowed_origins, host_of, same_host, from_host, origin_allows_request,
}
use server_central.Cors.Listed.{IsListed, resolve_allowed_origins_iff, some_inj}

module _ (url_host : String → Option String) (to_lower_case : String → String) where
  -- The origin names a host that the request arrived on.
  abbrev pub IsSameHost : List (Option String) → String → Type 0
  IsSameHost hosts given =
      (host from : String) × (before after : List (Option String)) × (hosts
        ≡ before ++ some host ∷ after)
      × (host_of url_host to_lower_case given ≡ some from)
      × (host_of url_host to_lower_case host ≡ some from)

same_option-some : (o : Option String) (b : String) → same_option o (some b) ≡ true ↔ (o ≡ some b)
same_option-some none b = ((λ h. cc), (λ h. cc))
same_option-some (some a) b =
    ((λ h. ap some ((eq_iff a b).0 h)), (λ h. (eq_iff a b).1 (some_inj h)))

module _ (url_host : String → Option String) (to_lower_case : String → String) where
  any-same_host :
      (from : String) (hosts : List (Option String))
      → any (same_host url_host to_lower_case from) hosts ≡ true
      → (host : String) × (before after : List (Option String)) × (hosts
          ≡ before ++ some host ∷ after)
        × (host_of url_host to_lower_case host ≡ some from)
  unfolding any
  any-same_host from [] h = cc
  any-same_host from (none ∷ hosts) h =
      let (host, before, after, e, m) = any-same_host from hosts h in
      (host, none ∷ before, after, ap (λ r. none ∷ r) e, m)
  any-same_host from (some x ∷ hosts) h = elim (or-eq-true h) [
    | inl this ↦
        (x, [], hosts, refl, (same_option-some (host_of url_host to_lower_case x) from).0 this)
    | inr that ↦
        let (host, before, after, e, m) = any-same_host from hosts that in
        (host, some x ∷ before, after, ap (λ r. some x ∷ r) e, m)
  ]

  any-append :
      (from host : String) (before after : List (Option String))
      → host_of url_host to_lower_case host ≡ some from
      → any (same_host url_host to_lower_case from) (before ++ some host ∷ after) ≡ true
  unfolding any
  any-append from host [] after m =
      ground (arith, (same_option-some (host_of url_host to_lower_case host) from).1 m)
  any-append from host (x ∷ before) after m = ground (arith, any-append from host before after m)

  from_host_iff :
      (given : String) (hosts : List (Option String))
      → from_host url_host to_lower_case (host_of url_host to_lower_case given) hosts ≡ true
        ↔ IsSameHost url_host to_lower_case hosts given
  from_host_iff given hosts = (
    (λ h. elim (Option-cases (host_of url_host to_lower_case given)) [
      | inl e ↦ let impossible = rw e at h in cc
      | inr (from, e) ↦
          let (host, before, after, split, m) = any-same_host from hosts (rw e at h) in
          (host, from, before, after, split, e, m)
    ]),
    (λ (host, from, before, after, split, e, m).
        rw (e, split) (any-append from host before after m)),
  )

  -- A request is let through just if it has no origin, or `*` or its origin is listed (configured, or
  -- the primary URL's), or its origin names a host that it arrived on.
  pub origin_allows_request_iff :
      (url_origin : String → Option String) (configured : List String) (primary_url : Option String)
      (origin : Option String) (hosts : List (Option String))
      → origin_allows_request url_host to_lower_case origin hosts
            (resolve_allowed_origins url_origin configured primary_url)
          ≡ true
        ↔ (truthy origin ≡ none)
          ⊎ ((given : String) × (truthy origin ≡ some given)
              × (IsListed url_origin configured primary_url "*"
                  ⊎ IsListed url_origin configured primary_url given
                  ⊎ IsSameHost url_host to_lower_case hosts given))
  unfolding origin_allows_request
  origin_allows_request_iff url_origin configured primary_url origin hosts =
      elim (Option-cases (truthy origin)) [
        | inl e ↦ ((λ h. inl e), (λ h. ground (arith, e)))
        | inr (given, e) ↦
            let star = resolve_allowed_origins_iff url_origin configured primary_url "*" in
            let own = resolve_allowed_origins_iff url_origin configured primary_url given in
            let site = from_host_iff given hosts in
            (
              (λ h. elim (or-eq-true (rw (origin_allows_request, e) at h)) [
                | inl r ↦ elim (or-eq-true r) [
                  | inl s ↦ inr (given, e, inl (star.0 s))
                  | inr o ↦ inr (given, e, inr (inl (own.0 o)))
                ]
                | inr f ↦ inr (given, e, inr (inr (site.0 f)))
              ]),
              (λ h. elim h [
                | inl n ↦ cc
                | inr (other, f, why) ↦
                    let same : other ≡ given = some_inj (sym f ∙ e) in
                    elim (subst
                      (λ x.
                        IsListed url_origin configured primary_url "*"
                        ⊎ IsListed url_origin configured primary_url x
                        ⊎ IsSameHost url_host to_lower_case hosts x)
                      same why) [
                        | inl s ↦ ground (arith, e, star.1 s)
                        | inr (inl o) ↦ ground (arith, e, own.1 o)
                        | inr (inr t) ↦ ground (arith, e, site.1 t)
                      ]
              ]),
            )
      ]
