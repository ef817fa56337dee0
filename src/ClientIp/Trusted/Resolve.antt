-- ===== src/ClientIp/Trusted/Resolve.antt =====
-- What `resolveClientIp` of apps/server/src/client-ip.ts answers.
pub mod Walk
use Prim.Native.String.{[], ◌∷◌}
use mathlib.Core.List.{map-append, append_assoc}
use server_central.Prelude.{
  ◌≡◌, refl, sym, subst, ◌≢◌, ◌∙◌, ap, ◌⊎◌, inl, inr, String, code, Bool, true, false, ◌&&◌, ◌||◌,
  List, Option, none, some, if◌then◌else◌, ◌==◌, ◌===◌, Bool-cases, Option-cases, arith, map, ◌++◌,
  any, is_some, is_empty, All, trim,
}
use server_central.Prelude.Text.Split.{◌+++◌, cut_first, split, split_append}
use server_central.ClientIp.{Bytes, parse_ip, format, drop_open, drop_close}
use server_central.ClientIp.Trusted.{
  Cidr, is_trusted, peer_bytes, peer_text, untrusted, right_first, walk, strip_port, for_values,
  elements, parse_forwarded_chain, resolve_client_ip, found_or, read_chain,
}
use server_central.ClientIp.Trusted.Resolve.Walk.{Taken, IsSkipped, walk-append, walk_cases}

module _ (to_lower_case : String → String) where
  elements_append :
      (xs ys : List String)
      → elements to_lower_case (xs ++ ys) ≡ elements to_lower_case xs ++ elements to_lower_case ys
  unfolding elements
  elements_append List.[] ys = refl
  elements_append (List.◌∷◌ x xs) ys =
      rw (elements_append xs ys) (sym (append_assoc (for_values to_lower_case (split b';' x)) _ _))

  -- The chain of a header to which a value was put in front.
  parse_forwarded_chain_append :
      (header_name a b : String)
      → parse_forwarded_chain to_lower_case header_name (a +++ ("," +++ b))
        ≡ parse_forwarded_chain to_lower_case header_name a
          ++ parse_forwarded_chain to_lower_case header_name b
  unfolding parse_forwarded_chain
  parse_forwarded_chain_append header_name a b =
      elim (Bool-cases (to_lower_case (trim header_name) === "forwarded")) [
        | inl e ↦
            rw (e, split_append b',' a "," b refl) (elements_append (split b',' a) (split b',' b))
        | inr e ↦
            rw (e, split_append b',' a "," b refl)
              (map-append strip_port (split b',' a) (split b',' b))
      ]

module _ (to_lower_case : String → String) (peer : Option String) (trusted : List Cidr)
    (header_name : String) where
  abbrev resolved : String → Option String
  resolved value = resolve_client_ip to_lower_case peer (some value) trusted header_name

  abbrev chain_of : String → List String
  chain_of value = parse_forwarded_chain to_lower_case header_name value

  chain_of-nil : walk trusted (chain_of []) ≡ none
  unfolding parse_forwarded_chain elements for_values split walk strip_port parse_ip trim cut_first
  chain_of-nil = elim (Bool-cases (to_lower_case (trim header_name) === "forwarded")) [
    | inl e ↦ rw e refl
    | inr e ↦ rw e refl
  ]

  resolved-walk :
      (value : String)
      → is_trusted (peer_bytes peer) trusted ≡ true
      → resolved value ≡ found_or (peer_text peer) (walk trusted (chain_of value))
  unfolding resolve_client_ip
  resolved-walk [] t = rw (t, chain_of-nil) refl
  resolved-walk (c ∷ value) t = rw t refl

any-skipped :
    (trusted : List Cidr) (chain : List String)
    → All (IsSkipped trusted) chain
    → any (λ entry. is_some (untrusted trusted (parse_ip entry))) chain ≡ false
unfolding any
any-skipped trusted List.[] h = refl
any-skipped trusted (List.◌∷◌ x xs) (h, k) = rw (h, any-skipped trusted xs k) refl

walk_forged :
    (to_lower_case : String → String) (trusted : List Cidr) (header_name forged honest : String)
    → any
        (λ entry. is_some (untrusted trusted (parse_ip entry)))
        (parse_forwarded_chain to_lower_case header_name honest)
      ≡ true
    → walk trusted (parse_forwarded_chain to_lower_case header_name (forged +++ ("," +++ honest)))
      ≡ walk trusted (parse_forwarded_chain to_lower_case header_name honest)
walk_forged to_lower_case trusted header_name forged honest h =
    elim (walk_cases trusted (parse_forwarded_chain to_lower_case header_name honest)) [
      | inl (skipped, e) ↦ let f = any-skipped trusted _ skipped in cc
      | inr (found, e, taken) ↦
          rw (parse_forwarded_chain_append to_lower_case header_name forged honest) (
            walk-append trusted (parse_forwarded_chain to_lower_case header_name forged)
              (parse_forwarded_chain to_lower_case header_name honest)
            ∙ rw e refl)
    ]

-- What someone puts in front of the header's value changes nothing, once the rest of the value names
-- an address that is not a trusted proxy's.
pub resolve_client_ip-forged :
    (to_lower_case : String → String) (peer : Option String) (trusted : List Cidr)
    (header_name forged honest : String)
    → any
        (λ entry. is_some (untrusted trusted (parse_ip entry)))
        (parse_forwarded_chain to_lower_case header_name honest)
      ≡ true
    → resolve_client_ip to_lower_case peer (some (forged +++ ("," +++ honest))) trusted header_name
      ≡ resolve_client_ip to_lower_case peer (some honest) trusted header_name
resolve_client_ip-forged to_lower_case peer trusted header_name forged honest h =
    elim (Bool-cases (is_trusted (peer_bytes peer) trusted)) [
      | inl t ↦
          resolved-walk to_lower_case peer trusted header_name (forged +++ ("," +++ honest)) t
          ∙ ap (found_or (peer_text peer))
              (walk_forged to_lower_case trusted header_name forged honest h)
          ∙ sym (resolved-walk to_lower_case peer trusted header_name honest t)
      | inr f ↦ unfold resolve_client_ip in rw f refl
    ]

-- The client's address is the peer's when the peer is no trusted proxy; behind one it is the last
-- address of the header that is not a trusted proxy's, and the peer's when there is none.
pub resolve_client_ip_lem :
    (to_lower_case : String → String) (peer : Option String) (value : String) (trusted : List Cidr)
    (header_name : String)
    → let answer = resolve_client_ip to_lower_case peer (some value) trusted header_name in
      let chain = parse_forwarded_chain to_lower_case header_name value in
      ((is_trusted (peer_bytes peer) trusted ≡ false) × (answer ≡ peer_text peer))
      ⊎ ((is_trusted (peer_bytes peer) trusted ≡ true)
          × ((All (IsSkipped trusted) chain × (answer ≡ peer_text peer))
              ⊎ ((found : Bytes) × Taken trusted chain found × (answer ≡ some (format found)))))
unfolding resolve_client_ip
resolve_client_ip_lem to_lower_case peer value trusted header_name =
    elim (Bool-cases (is_trusted (peer_bytes peer) trusted)) [
      | inl t ↦ inr (t, answered t (walk_cases trusted chain))
      | inr f ↦ inl (f, rw f refl)
    ]
  where
    chain : List String
    chain = parse_forwarded_chain to_lower_case header_name value

    answer : Option String
    answer = resolve_client_ip to_lower_case peer (some value) trusted header_name

    answered :
        is_trusted (peer_bytes peer) trusted ≡ true
        → (All (IsSkipped trusted) chain × (walk trusted chain ≡ none))
          ⊎ ((found : Bytes) × (walk trusted chain ≡ some found) × Taken trusted chain found)
        → (All (IsSkipped trusted) chain × (answer ≡ peer_text peer))
          ⊎ ((found : Bytes) × Taken trusted chain found × (answer ≡ some (format found)))
    answered t (inl (skipped, e)) = inl (
      skipped,
      resolved-walk to_lower_case peer trusted header_name value t
          ∙ ap (found_or (peer_text peer)) e,
    )
    answered t (inr (found, e, taken)) = inr (
      found,
      taken,
      resolved-walk to_lower_case peer trusted header_name value t
          ∙ ap (found_or (peer_text peer)) e,
    )
