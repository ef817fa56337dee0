-- ===== src/Tasks.antt =====
-- apps/server/src/tasks/store.ts: `TaskStore`, the runs by id, with what `tasks.json` holds. Of
-- what a run was asked to do the kind is kept; what started it and what it returned are texts, and `resolve_orphan` is the resolver that
-- `init` is given. Writes are taken to succeed.
mod Tests
pub mod Bounded
use server_central.Prelude.{
  ℕ, String, Bool, true, false, ◌||◌, List, [], ◌∷◌, map, Option, none, some, if◌then◌else◌, ◌===◌,
  ltb, length, any, filter, same_option,
}
use server_central.Prelude.Dict.{Dict, get, put, values, update_all}

pub data TaskStatus : Type 0 where
  pending running succeeded failed cancelled : TaskStatus

pub record TaskRun : Type 0 where
  pub id : String
  pub kind : String
  pub target : Option String
  pub trigger : String
  pub created_at : ℕ
  pub status : TaskStatus
  pub result : Option String
  pub error : Option String
  pub started_at : Option ℕ
  pub finished_at : Option ℕ

-- What a resolver says of a run that was left; `none` is "not mine".
pub data Outcome : Type 0 where
  did_succeed did_fail : String → Outcome

pub record TaskStore : Type 0 where
  pub runs : Dict TaskRun
  pub file : List TaskRun

abbrev pub max_runs : ℕ
max_runs = 200

abbrev persist : TaskStore → TaskStore
persist s = record s { file = values s.runs }

abbrev pub is_open : TaskStatus → Bool
is_open pending = true
is_open running = true
is_open succeeded = false
is_open failed = false
is_open cancelled = false

unfoldable pub finish_orphan : ℕ → TaskRun → Option Outcome → TaskRun
finish_orphan now run (some (did_succeed result)) = record run {
  status = succeeded;
  result = some result;
  finished_at = some now;
}
finish_orphan now run (some (did_fail error)) = record run {
  status = failed;
  error = some error;
  finished_at = some now;
}
finish_orphan now run none = record run {
  status = failed;
  error = some "Interrupted by a control-plane restart; the outcome is unknown.";
  finished_at = some now;
}

-- The runs of the file, by id.
load : Dict TaskRun → List TaskRun → Dict TaskRun
load runs [] = runs
load runs (run ∷ more) = load (put runs run.id run) more

module _ (resolve_orphan : TaskRun → Option Outcome) where
  abbrev pub reap : ℕ → TaskRun → TaskRun
  reap now run = if is_open run.status then finish_orphan now run (resolve_orphan run) else run

  unfoldable pub reap_orphans : ℕ → TaskStore → TaskStore
  reap_orphans now s =
      if any (λ run. is_open run.status) (values s.runs)
      then persist (record s { runs = update_all (reap now) s.runs })
      else s

  unfoldable pub init : List TaskRun → ℕ → TaskStore
  unfolding load reap_orphans
  init stored now = reap_orphans now (record { runs = load [] stored; file = stored })

-- The oldest is dropped while there are too many.
unfoldable pub prune : Dict TaskRun → Dict TaskRun
prune [] = []
prune (e ∷ m) = let rest = prune m in if ltb max_runs (length (e ∷ m)) then rest else e ∷ m

unfoldable pub put_run : TaskRun → TaskStore → TaskStore
unfolding prune
put_run run s = persist (record s { runs = prune (put s.runs run.id run) })

unfoldable pub get_run : String → TaskStore → Option TaskRun
get_run id s = get s.runs id
