-- ===== src/Rpc/Dispatch.antt =====
-- What has been checked by the time a body is read or a handler runs.
use server_central.Prelude.{
  String, List, true, some, ◌≡◌, ◌≢◌, refl, arith, includes, eq_iff, ◌↔◌, ◌⊎◌, ap, ◌∙◌,
}
use server_central.Prelude.Text.Split.{◌+++◌}
use server_central.Prelude.Dict.{get}
use server_central.Permission.Defs.{PermissionSubject}
use server_central.Permission.Requirements.{unclassified}
use server_central.Permission.Subject.{user_can}
use server_central.Rpc.Gate.{OpOf, authorize_user}
use server_central.Rpc.{
  allowed, Request, command_of, authorize, read_and_run, handle_rpc, run_handler, unframed,
  drop_chars,
}

-- The checks that a request has passed.
pub record IsAdmitted (table : List String) (req : Request) : Type 0 where
  pub posted : req.method ≡ "POST"
  pub same_origin : req.origin_allowed ≡ true
  pub registered : includes table (command_of req.pathname) ≡ true
  pub authorized : authorize (command_of req.pathname) req.user ≡ allowed

-- Not one byte of a body is read before every check has passed.
pub body_read-IsAdmitted :
    (table : List String) (req : Request)
    → (handle_rpc table req).body_read ≡ true
    → IsAdmitted table req
unfolding handle_rpc
body_read-IsAdmitted table req h = record {
  posted = (eq_iff req.method "POST").0 (ground arith);
  same_origin = ground arith;
  registered = ground arith;
  authorized = ground arith;
}

-- A handler runs only behind every check, and only the one of the command that the path names.
pub handler_ran-IsAdmitted :
    (table : List String) (req : Request) (command : String)
    → (handle_rpc table req).handler_ran ≡ some command
    → IsAdmitted table req × (command ≡ command_of req.pathname)
unfolding handle_rpc read_and_run run_handler
handler_ran-IsAdmitted table req command h = (
  record {
    posted = (eq_iff req.method "POST").0 (ground arith);
    same_origin = ground arith;
    registered = ground arith;
    authorized = ground arith;
  },
  ground arith,
)

handle_rpc-admitted :
    (table : List String) (req : Request)
    → IsAdmitted table req
    → req.body ≢ unframed
    → (handle_rpc table req).handler_ran ≡ some (command_of req.pathname)
unfolding handle_rpc read_and_run run_handler
handle_rpc-admitted table req a w = ground (arith, (eq_iff req.method "POST").1 a.posted)

command_of_path : (op : String) → command_of ("/api/" +++ op) ≡ op
unfolding command_of drop_chars
command_of_path op = refl

-- A POST to `/api/<operation>` from an origin that is let through, by a user who is signed in, with a
-- body that is not badly framed, reaches the handler of just that operation, if it has one, exactly if
-- the operation is public, or one of the session's own, or listed by a node that the user holds.
pub handle_rpc-runs :
    (table : List String) (op : String) (user : PermissionSubject) (req : Request)
    → includes table op ≡ true
    → req.method ≡ "POST"
    → req.origin_allowed ≡ true
    → req.pathname ≡ "/api/" +++ op
    → req.user ≡ some user
    → req.body ≢ unframed
    → ((handle_rpc table req).handler_ran ≡ some op) ↔ (
        ((r : String) × (get unclassified op ≡ some r))
        ⊎ ((r : String) × OpOf op r × (user_can (some user) r ≡ true)))
handle_rpc-runs table op user req registered posted origin path who framed =
    let named : command_of req.pathname ≡ op = ap command_of path ∙ command_of_path op in
    (
      (λ h.
          (authorize_user op user).0
            (cc ((handler_ran-IsAdmitted table req op h).0.authorized, named, who))),
      (λ may.
          let open_gate : authorize op (some user) ≡ allowed = (authorize_user op user).1 may in
          handle_rpc-admitted table req
            (record {
              posted = posted;
              same_origin = origin;
              registered = rw named registered;
              authorized = rw (named, who) open_gate;
            })
            framed
          ∙ ap some named),
    )
