-- ===== src/Rpc.antt =====
-- apps/server/src/http/rpc.ts: the dispatcher and the authorization gate in front of it. The session
-- lookup, the origin rule and the body's framing enter as what they answered for the request.
mod Tests
pub mod Gate
pub mod Dispatch
use Prim.Native.String.{[], ◌∷◌}
use server_central.Prelude.{
  ℕ, zero, suc, String, Bool, true, false, not, ◌&&◌, ◌||◌, List, Option, none, some, ◌===◌,
  if◌then◌else◌, includes, starts_with,
}
use server_central.Prelude.Dict.{get}
use server_central.Permission.Defs.{PermissionSubject}
use server_central.Permission.Subject.{user_can}
use server_central.Permission.Requirements.{op_requirements}

-- What a response says besides its status.
pub data Reason : Type 0 where
  forbidden unauthorized use_post cross_origin unknown_command malformed_body handler_threw : Reason
  requires : String → Reason

pub data Verdict : Type 0 where
  allowed : Verdict
  denied : (status : ℕ) → Reason → Verdict

-- The gate once the requirement is known.
unfoldable pub check : String → Option PermissionSubject → Verdict
check required user = if required === "public" then allowed else elim user [
  | none ↦ denied 401 unauthorized
  | some u ↦
      if not (required === "authenticated") && not (user_can (some u) required)
      then denied 403 (requires required)
      else allowed
]

unfoldable pub authorize : String → Option PermissionSubject → Verdict
unfolding check
authorize command user = elim (get op_requirements command) [
  | none ↦ denied 403 forbidden
  | some required ↦ check required user
]

unfoldable pub is_rpc_path : String → Bool
is_rpc_path pathname = pathname === "/api" || starts_with pathname "/api/"

-- `s.slice(n)`
drop_chars : ℕ → String → String
drop_chars zero s = s
drop_chars (suc n) [] = []
drop_chars (suc n) (c ∷ s) = drop_chars n s

-- How the body comes: as JSON, or as multipart that the framing accepts or refuses.
pub data Body : Type 0 where
  json framed unframed : Body

pub record Request : Type 0 where
  pub method : String
  pub origin_allowed : Bool
  pub pathname : String
  -- what the bearer token resolved to
  pub user : Option PermissionSubject
  pub body : Body
  -- whether the handler throws on this request
  pub throws : Bool

-- The answer, with what was done on the way to it.
pub record Response : Type 0 where
  pub status : ℕ
  pub reason : Option Reason
  pub body_read : Bool
  pub handler_ran : Option String

abbrev refuse : ℕ → Reason → Response
refuse status reason = record {
  status = status;
  reason = some reason;
  body_read = false;
  handler_ran = none;
}

run_handler : String → Bool → Response
run_handler command throws =
    if throws
    then record {
      status = 500;
      reason = some handler_threw;
      body_read = true;
      handler_ran = some command;
    }
    else record { status = 200; reason = none; body_read = true; handler_ran = some command }

read_and_run : String → Request → Response
unfolding run_handler
read_and_run command req = elim req.body [
  | unframed ↦ record {
    status = 400;
    reason = some malformed_body;
    body_read = true;
    handler_ran = none;
  }
  | json ↦ run_handler command req.throws
  | framed ↦ run_handler command req.throws
]

-- The command a path names.
unfoldable pub command_of : String → String
unfolding drop_chars
command_of pathname = drop_chars 5 pathname

unfoldable pub handle_rpc : List String → Request → Response
unfolding read_and_run command_of authorize
handle_rpc table req =
    if not (req.method === "POST")
    then refuse 405 use_post
    else if not req.origin_allowed
    then refuse 403 cross_origin
    else if not (includes table (command_of req.pathname))
    then refuse 404 unknown_command
    else elim (authorize (command_of req.pathname) req.user) [
      | denied status reason ↦ refuse status reason
      | allowed ↦ read_and_run (command_of req.pathname) req
    ]
