-- ===== src/Cors.antt =====
-- apps/server/src/cors.ts: the origins that may read an answer, and the request-level rule that the
-- dispatcher asks. `url_origin` and `url_host` are what `new URL(x).origin` and `new URL(x).host` give,
-- none where `new URL` throws, and `to_lower_case` is the case mapping.
pub mod Foreign
pub mod Listed
mod Tests
use Prim.Native.String.{[], ◌∷◌}
use server_central.Prelude.{
  String, Bool, true, false, not, ◌&&◌, ◌||◌, List, ◌++◌, Option, none, some, if◌then◌else◌, ◌===◌,
  is_empty, trim, any, includes, starts_with, same_option,
}
use server_central.Prelude.Text.Split.{◌+++◌}
use server_central.Prelude.Clean.{push_checked}

-- `s && ...` on a text that may be null.
abbrev pub truthy : Option String → Option String
truthy none = none
truthy (some s) = if is_empty s then none else some s

-- `s.includes(t)`
unfoldable pub has_text : String → String → Bool
has_text [] t = starts_with [] t
has_text (c ∷ s) t = starts_with (c ∷ s) t || has_text s t

-- What one configured entry is read as, none where it is skipped.
unfoldable pub normalized : (String → Option String) → String → Option String
unfolding trim
normalized url_origin entry =
    let trimmed = trim entry in
    if is_empty trimmed
    then none
    else if trimmed === "*"
    then some "*"
    else truthy (url_origin trimmed)

unfoldable pub push_entries : (String → Option String) → List String → List String → List String
unfolding normalized
push_entries url_origin out List.[] = out
push_entries url_origin out (List.◌∷◌ entry rest) =
    push_entries url_origin (push_checked out (normalized url_origin entry)) rest

unfoldable pub origin_of_primary : (String → Option String) → Option String → Option String
origin_of_primary url_origin primary_url = elim (truthy primary_url) [
  | none ↦ none
  | some url ↦ truthy (url_origin url)
]

unfoldable pub resolve_allowed_origins :
    (String → Option String) → List String → Option String → List String
unfolding push_entries origin_of_primary
resolve_allowed_origins url_origin configured primary_url =
    push_checked (push_entries url_origin List.[] configured)
      (origin_of_primary url_origin primary_url)

unfoldable pub cors_headers : Option String → List String → List (String × String)
unfolding includes
cors_headers origin allowed =
    let base =
      List.◌∷◌ ("Access-Control-Allow-Methods", "POST, OPTIONS")
        (List.◌∷◌ ("Access-Control-Allow-Headers", "Content-Type, Authorization") List.[]) in
    if not (any (λ entry. true) allowed) || includes allowed "*"
    then base ++ List.◌∷◌ ("Access-Control-Allow-Origin", "*") List.[]
    else let varied = base ++ List.◌∷◌ ("Vary", "Origin") List.[] in
      elim (truthy origin) [
        | none ↦ varied
        | some given ↦
            if includes allowed given
            then varied ++ List.◌∷◌ ("Access-Control-Allow-Origin", given) List.[]
            else varied
      ]

module _ (url_host : String → Option String) (to_lower_case : String → String) where
  unfoldable pub host_of : String → Option String
  unfolding trim has_text
  host_of value =
      let trimmed = trim value in
      if is_empty trimmed
      then none
      else elim (url_host (if has_text trimmed "://" then trimmed else "http://" +++ trimmed)) [
        | none ↦ none
        | some host ↦ some (to_lower_case host)
      ]

  -- `host !== null && hostOf(host) === from`
  abbrev pub same_host : String → Option String → Bool
  same_host from none = false
  same_host from (some host) = same_option (host_of host) (some from)

  abbrev pub from_host : Option String → List (Option String) → Bool
  from_host none hosts = false
  from_host (some from) hosts = any (same_host from) hosts

  unfoldable pub origin_allows_request : Option String → List (Option String) → List String → Bool
  unfolding includes host_of any
  origin_allows_request origin hosts allowed = elim (truthy origin) [
    | none ↦ true
    | some given ↦ includes allowed "*" || includes allowed given || from_host (host_of given) hosts
  ]
