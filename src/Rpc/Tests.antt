-- ===== src/Rpc/Tests.antt =====
-- The theorems on the gate and the dispatcher at concrete requests.
use server_central.Prelude.{
  String, true, false, [], ◌∷◌, none, some, ◌≡◌, refl, sym, filter, ◌↔◌, ◌⊎◌, inl, inr, includes,
  arith, eq_iff,
}
use server_central.Prelude.Dict.{get, put}
use server_central.Permission.Defs.{PermissionSubject}
use server_central.Permission.Registry.{
  panel_permissions, session_ops, public_ops, sensitive_permissions,
}
use server_central.Permission.Matching.{IsWildcard}
use server_central.Permission.Requirements.{unclassified, op_requirements}
use server_central.Permission.Requirements.Exhaustive.{op_requirements_iff}
use server_central.Permission.Subject.{user_can}
use server_central.Rpc.{
  allowed, denied, requires, check, authorize, Request, json, command_of, handle_rpc, read_and_run,
  run_handler, drop_chars,
}
use server_central.Rpc.Gate.{OpOf, authorize_anonymous, authorize_user, authorize_sensitive}
use server_central.Rpc.Dispatch.{IsAdmitted, handler_ran-IsAdmitted, handle_rpc-runs}

authorize_anonymous_example :
    (authorize "auth/login" none ≡ allowed) ↔ (includes public_ops "auth/login" ≡ true)
authorize_anonymous_example = authorize_anonymous "auth/login"

abbrev anyone : PermissionSubject
anyone = record { is_owner = false; permissions = [] }

abbrev owner : PermissionSubject
owner = record { is_owner = true; permissions = [] }

authorize_user_example : (authorize "docker/list" (some anyone) ≡ allowed) ↔ (
    ((r : String) × (get unclassified "docker/list" ≡ some r))
    ⊎ ((r : String) × OpOf "docker/list" r × (user_can (some anyone) r ≡ true)))
authorize_user_example = authorize_user "docker/list" anyone

abbrev login_request : Request
login_request = record {
  method = "POST";
  origin_allowed = true;
  pathname = "/api/auth/login";
  user = none;
  body = json;
  throws = false;
}

handler_ran-IsAdmitted_example :
    IsAdmitted ("auth/login" ∷ []) login_request × ("auth/login" ≡ command_of "/api/auth/login")
unfolding handle_rpc authorize check command_of drop_chars read_and_run run_handler op_requirements
    includes get panel_permissions session_ops put public_ops
handler_ran-IsAdmitted_example =
    handler_ran-IsAdmitted ("auth/login" ∷ []) login_request "auth/login" refl

abbrev wide : PermissionSubject
wide = record { is_owner = false; permissions = "*" ∷ [] }

listed : OpOf "auth/createRole" "panel.roles.admin"
unfolding op_requirements unclassified get put panel_permissions public_ops session_ops
listed = elim ((op_requirements_iff "auth/createRole" "panel.roles.admin").0 refl) [
  | inl rung ↦ cc
  | inr op ↦ op
]

only_wide : (a : String) → includes ("*" ∷ []) a ≡ true → IsWildcard a
unfolding includes
only_wide a h = inr (sym ((eq_iff "*" a).0 (ground arith)))

-- Holding `*` is not enough to define roles.
authorize_sensitive_example :
    authorize "auth/createRole" (some wide) ≡ denied 403 (requires "panel.roles.admin")
unfolding sensitive_permissions panel_permissions includes filter
authorize_sensitive_example =
    authorize_sensitive "auth/createRole" "panel.roles.admin" wide listed refl refl only_wide

abbrev roles_request : Request
roles_request = record login_request { pathname = "/api/auth/createRole"; user = some wide }

handle_rpc-runs_example :
    ((handle_rpc ("auth/createRole" ∷ []) roles_request).handler_ran ≡ some "auth/createRole") ↔ (
      ((r : String) × (get unclassified "auth/createRole" ≡ some r))
      ⊎ ((r : String) × OpOf "auth/createRole" r × (user_can (some wide) r ≡ true)))
unfolding includes
handle_rpc-runs_example =
    handle_rpc-runs ("auth/createRole" ∷ []) "auth/createRole" wide roles_request refl refl refl
      refl refl (λ e. cc)
