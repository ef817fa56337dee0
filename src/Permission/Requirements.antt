-- ===== src/Permission/Requirements.antt =====
-- shared/src/permissions.ts: the lookups that invert the registry.
pub mod Exhaustive
use server_central.Prelude.{
  String, Bool, true, false, List, [], ◌∷◌, Option, none, some, Result, ok, err, ◌>>=◌, or_else,
}
use server_central.Prelude.Dict.{Dict, get, put}
use server_central.Permission.Defs.{PermissionDef}
use server_central.Permission.Registry.{panel_permissions, public_ops, session_ops}

-- The error that a double classification throws while the module loads.
pub data ClassifiedTwice : Type 0 where
  classified_twice : (name first second : String) → ClassifiedTwice

-- The inner loop: each name that one node lists.
pub classify : Dict String → String → List String → Result ClassifiedTwice (Dict String)
classify out id [] = ok out
classify out id (name ∷ names) = elim (get out name) [
  | some first ↦ err (classified_twice name first id)
  | none ↦ classify (put out name id) id names
]

-- The outer loop, over the nodes of a registry.
pub classify_all :
    (PermissionDef → List String)
    → Dict String
    → List PermissionDef
    → Result ClassifiedTwice (Dict String)
unfolding classify
classify_all names out [] = ok out
classify_all names out (d ∷ ds) = do next ← classify out d.id (names d); classify_all names next ds

-- `for (const op of ops) out[op] = requirement`
assign_all : Dict String → String → List String → Dict String
assign_all out requirement [] = out
assign_all out requirement (op ∷ ops) = assign_all (put out op requirement) requirement ops

unfoldable pub unclassified : Dict String
unfolding assign_all
unclassified = assign_all (assign_all [] "public" public_ops) "authenticated" session_ops

pub build_op_requirements : List PermissionDef → Result ClassifiedTwice (Dict String)
unfolding classify_all unclassified
build_op_requirements defs = classify_all (λ d. d.ops) unclassified defs

pub build_task_requirements : List PermissionDef → Result ClassifiedTwice (Dict String)
unfolding classify_all
build_task_requirements defs = classify_all (λ d. d.tasks) [] defs

pub build_event_requirements : List PermissionDef → Result ClassifiedTwice (Dict String)
unfolding classify_all
build_event_requirements defs = classify_all (λ d. d.events) [] defs

-- What a build leaves in its constant. A build that throws keeps the module from loading.
abbrev built : Result ClassifiedTwice (Dict String) → Dict String
built (ok out) = out
built (err e) = []

unfoldable pub op_requirements : Dict String
unfolding build_op_requirements
op_requirements = built (build_op_requirements panel_permissions)

unfoldable pub task_kind_permissions : Dict String
unfolding build_task_requirements
task_kind_permissions = built (build_task_requirements panel_permissions)

unfoldable pub event_permissions : Dict String
unfolding build_event_requirements
event_permissions = built (build_event_requirements panel_permissions)
