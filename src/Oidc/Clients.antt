-- ===== src/Oidc/Clients.antt =====
-- apps/server/src/features/oidc/store.ts: the registered clients and the authorization codes that wait
-- to be exchanged. `hash` and `verify` of `Bun.password`, `is_url` (`new URL` does not throw),
-- `randomUUID`, `randomBytes` and the time enter as arguments. `file` is what `apps.json` holds; writes
-- are taken to succeed. The signing key is left out.
use server_central.Prelude.{
  ℕ, ◌+◌, ◌*◌, String, Bool, not, ◌&&◌, List, [], ◌∷◌, Option, none, some, Result, ok, err, ◌>>=◌,
  ◌>>◌, ensure, if◌then◌else◌, ◌===◌, ltb, is_empty, trim, includes, map, is_some, filter, length,
  ◌==◌,
}
use server_central.Prelude.Dict.{Dict, get, put, remove, values}

pub record ClientRecord : Type 0 where
  pub id : String
  pub name : String
  pub redirect_uris : List String
  pub secret_hash : String
  pub created_at : ℕ
  pub app_id : Option String
  pub group_prefix : Option String

-- What the API shows of a client.
pub record OidcClient : Type 0 where
  pub id : String
  pub name : String
  pub redirect_uris : List String
  pub created_at : ℕ
  pub app_id : Option String
  pub group_prefix : Option String

pub record AuthCode : Type 0 where
  pub user_id : String
  pub client_id : String
  pub redirect_uri : String
  pub scope : String
  pub code_challenge : String
  pub nonce : Option String
  pub issued_at : ℕ
  pub expires_at : ℕ

-- What a code is issued for.
pub record CodeParams : Type 0 where
  pub user_id : String
  pub client_id : String
  pub redirect_uri : String
  pub scope : String
  pub code_challenge : String
  pub nonce : Option String

pub record AuthorizeParams : Type 0 where
  pub client_id : String
  pub redirect_uri : String
  pub scope : String
  pub state : String
  pub nonce : Option String
  pub code_challenge : String
  pub code_challenge_method : String

pub record ClientStore : Type 0 where
  pub clients : Dict ClientRecord
  pub codes : Dict AuthCode
  pub file : Dict ClientRecord

pub data ClientError : Type 0 where
  unknown_client no_redirect_uris redirect_uri_mismatch pkce_required name_required : ClientError
  invalid_redirect_uri : String → ClientError

abbrev pub code_ttl_ms : ℕ
code_ttl_ms = 60 * 1000

abbrev pub to_public : ClientRecord → OidcClient
to_public rec = record {
  id = rec.id;
  name = rec.name;
  redirect_uris = rec.redirect_uris;
  created_at = rec.created_at;
  app_id = rec.app_id;
  group_prefix = rec.group_prefix;
}

abbrev persist : ClientStore → ClientStore
persist s = record s { file = s.clients }

unfoldable pub init : Option (Dict ClientRecord) → ClientStore
init none = record { clients = []; codes = []; file = [] }
init (some stored) = record { clients = stored; codes = []; file = stored }

unfoldable pub list_clients : ClientStore → List OidcClient
list_clients s = map to_public (values s.clients)

abbrev public_of : Option ClientRecord → Option OidcClient
public_of none = none
public_of (some rec) = some (to_public rec)

unfoldable pub get_client : ClientStore → String → Option OidcClient
get_client s client_id = public_of (get s.clients client_id)

unfoldable pub assert_name : String → Result ClientError String
assert_name name = do ensure (not (is_empty (trim name))) name_required; ok (trim name)

-- `...(appId ? { appId } : {})`
abbrev linked : Option String → Option String
linked none = none
linked (some app_id) = if is_empty app_id then none else some app_id

module _ (is_url : String → Bool) where
  check_uris : List String → Result ClientError (List String)
  check_uris [] = ok []
  check_uris (uri ∷ uris) = do
    ensure (is_url uri) (invalid_redirect_uri uri)
    rest ← check_uris uris
    ok (uri ∷ rest)

  unfoldable pub assert_redirect_uris : List String → Result ClientError (List String)
  unfolding check_uris filter
  assert_redirect_uris uris = check_uris (filter (λ u. not (is_empty u)) (map trim uris))

  unfoldable pub create_client :
      (hash : String → String)
      → (uuid secret : String) → (name : String) → List String
      → (app_id : Option String) → ℕ
      → ClientStore
      → Result ClientError (OidcClient × ClientStore)
  unfolding assert_name assert_redirect_uris
  create_client hash uuid secret name redirect_uris app_id now s = do
    name ← assert_name name
    uris ← assert_redirect_uris redirect_uris
    let rec : ClientRecord = record {
      id = uuid;
      name = name;
      redirect_uris = uris;
      secret_hash = hash secret;
      created_at = now;
      app_id = linked app_id;
      group_prefix = none;
    }
    ok (to_public rec, persist (record s { clients = put s.clients uuid rec }))

  update_existing : ClientRecord → OidcClient → ClientStore → Result ClientError ClientStore
  unfolding assert_name assert_redirect_uris
  update_existing existing next s = do
    name ← assert_name next.name
    uris ← assert_redirect_uris next.redirect_uris
    ok (
        persist (record s {
          clients =
              put s.clients next.id
                (record existing { name = name; redirect_uris = uris; app_id = next.app_id });
        }))

  unfoldable pub update_client : OidcClient → ClientStore → Result ClientError ClientStore
  unfolding update_existing
  update_client next s = elim (get s.clients next.id) [
    | none ↦ err unknown_client
    | some existing ↦ update_existing existing next s
  ]

unfoldable pub regenerate_secret :
    (hash : String → String)
    → (secret client_id : String) → ClientStore
    → Result ClientError ClientStore
regenerate_secret hash secret client_id s = elim (get s.clients client_id) [
  | none ↦ err unknown_client
  | some rec ↦ ok (
      persist
        (record s { clients = put s.clients client_id (record rec { secret_hash = hash secret }) }))
]

unfoldable pub delete_client : String → ClientStore → ClientStore
delete_client client_id s =
    if is_some (get s.clients client_id)
    then persist (record s { clients = remove s.clients client_id })
    else s

-- The checks of `validateRequest` once the client is found.
unfoldable pub validate_found : AuthorizeParams → ClientRecord → Result ClientError OidcClient
validate_found params rec = do
  ensure (not (length rec.redirect_uris == 0)) no_redirect_uris
  ensure (includes rec.redirect_uris params.redirect_uri) redirect_uri_mismatch
  ensure (params.code_challenge_method === "S256" && not (is_empty params.code_challenge))
      pkce_required
  ok (to_public rec)

unfoldable pub validate_request : AuthorizeParams → ClientStore → Result ClientError OidcClient
unfolding validate_found
validate_request params s = elim (get s.clients params.client_id) [
  | none ↦ err unknown_client
  | some rec ↦ validate_found params rec
]

unfoldable pub verify_client_secret :
    (verify : String → String → Bool)
    → (client_id secret : String) → ClientStore
    → Option OidcClient
verify_client_secret verify client_id secret s = elim (get s.clients client_id) [
  | none ↦ none
  | some rec ↦ if verify secret rec.secret_hash then some (to_public rec) else none
]

unfoldable pub issue_code : (code : String) → CodeParams → ℕ → ClientStore → ClientStore
issue_code code params now s = record s {
  codes = put s.codes code (record {
    user_id = params.user_id;
    client_id = params.client_id;
    redirect_uri = params.redirect_uri;
    scope = params.scope;
    code_challenge = params.code_challenge;
    nonce = params.nonce;
    issued_at = now;
    expires_at = now + code_ttl_ms;
  });
}

abbrev pub fresh : ℕ → Option AuthCode → Option AuthCode
fresh now none = none
fresh now (some rec) = if ltb rec.expires_at now then none else some rec

-- The code is gone afterwards, whatever is answered.
unfoldable pub consume_code : String → ℕ → ClientStore → Option AuthCode × ClientStore
consume_code code now s = (fresh now (get s.codes code), record s { codes = remove s.codes code })
