-- ===== src/Tasks/Tests.antt =====
-- The theorems on runs at a concrete run.
use server_central.Prelude.{◌≤◌, false, [], ◌∷◌, Option, none, some, ◌≡◌, arith, length, any}
use server_central.Prelude.Dict.{values}
use server_central.Tasks.{TaskRun, Outcome, TaskStore, running, is_open, init, put_run, get_run}
use server_central.Tasks.Bounded.{put_run-bounded, init-closed}

abbrev update : TaskRun
update = record {
  id = "r1";
  kind = "update_agent";
  target = some "host";
  trigger = "manual";
  created_at = 1;
  status = running;
  result = none;
  error = none;
  started_at = some 2;
  finished_at = none;
}

abbrev no_runs : TaskStore
no_runs = record { runs = []; file = [] }

none_yet : length no_runs.runs ≤ 200
none_yet = omega arith

put_run-bounded_example :
    (get_run "r1" (put_run update no_runs) ≡ some update)
    × (length (put_run update no_runs).runs ≤ 200)
    × ((put_run update no_runs).file ≡ values (put_run update no_runs).runs)
put_run-bounded_example = put_run-bounded update no_runs none_yet

abbrev not_mine : TaskRun → Option Outcome
not_mine run = none

init-closed_example :
    any (λ run. is_open run.status) (values (init not_mine (update ∷ []) 9).runs) ≡ false
init-closed_example = init-closed not_mine (update ∷ []) 9
