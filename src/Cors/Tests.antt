-- ===== src/Cors/Tests.antt =====
-- Runs of apps/server/src/cors.ts, and the witness of its theorem.
use server_central.Prelude.{
  String, true, false, ◌||◌, List, [], ◌∷◌, Option, none, some, ◌≡◌, ◌↔◌, ◌⊎◌, refl, trim, any,
  includes, starts_with, if◌then◌else◌, ◌===◌,
}
use server_central.Cors.{
  truthy, normalized, push_entries, origin_of_primary, resolve_allowed_origins, cors_headers,
  has_text, host_of, origin_allows_request,
}
use server_central.Cors.Listed.{IsListed}
use server_central.Cors.Foreign.{IsSameHost, origin_allows_request_iff}

abbrev same : String → String
same s = s

-- `new URL(x)` on the addresses of the runs.
abbrev origin_of_run : String → Option String
origin_of_run s =
    if s === "https://sc.example.com/ui"
    then some "https://sc.example.com"
    else if s === "https://a.com"
    then some "https://a.com"
    else none

abbrev host_of_run : String → Option String
host_of_run s =
    if s === "https://sc.example.com" || s === "http://sc.example.com"
    then some "sc.example.com"
    else if s === "https://a.com"
    then some "a.com"
    else none

abbrev listed : List String
listed =
    resolve_allowed_origins origin_of_run
      (" https://a.com " ∷ "" ∷ "nonsense" ∷ "https://a.com" ∷ [])
      (some "https://sc.example.com/ui")

listed_run : listed ≡ "https://a.com" ∷ "https://sc.example.com" ∷ []
unfolding resolve_allowed_origins push_entries normalized origin_of_primary trim includes
listed_run = refl

headers_run :
    cors_headers (some "https://b.com") ("https://a.com" ∷ [])
    ≡ ("Access-Control-Allow-Methods", "POST, OPTIONS")
      ∷ ("Access-Control-Allow-Headers", "Content-Type, Authorization")
      ∷ ("Vary", "Origin")
      ∷ []
unfolding cors_headers includes any
headers_run = refl

-- An empty list is same-origin only.
request_run :
    origin_allows_request host_of_run same
      (some "https://a.com")
      (some "sc.example.com" ∷ some "" ∷ [])
      []
    ≡ false
unfolding origin_allows_request host_of has_text trim includes any starts_with
request_run = refl

origin_allows_request_iff_example :
    origin_allows_request host_of_run same
        (some "https://sc.example.com")
        (none ∷ some "sc.example.com" ∷ [])
        (resolve_allowed_origins origin_of_run ("https://a.com" ∷ []) none)
      ≡ true
    ↔ (truthy (some "https://sc.example.com") ≡ none)
      ⊎ ((given : String) × (truthy (some "https://sc.example.com") ≡ some given)
          × (IsListed origin_of_run ("https://a.com" ∷ []) none "*"
              ⊎ IsListed origin_of_run ("https://a.com" ∷ []) none given
              ⊎ IsSameHost host_of_run same (none ∷ some "sc.example.com" ∷ []) given))
origin_allows_request_iff_example =
    origin_allows_request_iff host_of_run same origin_of_run ("https://a.com" ∷ []) none
      (some "https://sc.example.com") (none ∷ some "sc.example.com" ∷ [])
