-- ===== src/Tasks/Bounded.antt =====
-- The store of runs stays bounded, and a start leaves no run open.
use text.Mathlib.TextPositions.{eq_refl}
use server_central.Prelude.{
  ℕ, ◌+◌, ◌≤◌, String, false, List, [], ◌∷◌, Option, none, some, ◌≡◌, refl, sym, subst, inl, inr,
  arith, ◌===◌, ltb, length, any, Bool-cases, Option-cases,
}
use server_central.Prelude.Dict.{Dict, get, put, values, update_all, get-put}
use server_central.Tasks.{
  TaskRun, Outcome, did_succeed, did_fail, TaskStore, is_open, finish_orphan, reap, reap_orphans,
  load, init, prune, put_run, get_run,
}

length-prune : (m : Dict TaskRun) → length (prune m) ≤ 200
unfolding prune
length-prune [] = omega arith
length-prune (e ∷ m) = ground (arith, length-prune m)

length-put_le : (m : Dict TaskRun) (k : String) (r : TaskRun) → length (put m k r) ≤ length m + 1
unfolding put
length-put_le [] k r = omega arith
length-put_le ((j, w) ∷ m) k r = ground (arith, length-put_le m k r)

length-put_known :
    (m : Dict TaskRun) (k : String) (r old : TaskRun)
    → get m k ≡ some old
    → length (put m k r) ≡ length m
unfolding put get
length-put_known [] k r old g = cc
length-put_known ((j, w) ∷ m) k r old g = ground (arith, length-put_known m k r old)

prune_small : (m : Dict TaskRun) → length m ≤ 200 → prune m ≡ m
unfolding prune
prune_small [] h = refl
prune_small (e ∷ m) h = ground arith

-- A run that is put in a store of at most 200 is stored, and what is dropped for it is never that run
-- itself; the store then still holds at most 200, and the file holds the same.
pub put_run-bounded :
    (run : TaskRun) (s : TaskStore)
    → length s.runs ≤ 200
    → (get_run run.id (put_run run s) ≡ some run)
      × (length (put_run run s).runs ≤ 200)
      × ((put_run run s).file ≡ values (put_run run s).runs)
unfolding put_run get_run put get prune
put_run-bounded run s h = (stored s.runs h, length-prune (put s.runs run.id run), refl)
  where
    found : (m : Dict TaskRun) → get (put m run.id run) run.id ≡ some run
    found m = rw (get-put m run.id run.id run, eq_refl run.id)

    Found : Dict TaskRun → Type 0
    Found m = get m run.id ≡ some run

    new_run :
        (m : Dict TaskRun) → get m run.id ≡ none → length m ≤ 200 → Found (prune (put m run.id run))
    new_run [] g b = found []
    new_run ((j, w) ∷ m) g b =
        let other : (j === run.id) ≡ false = ground (arith) in
        let fits : length (put m run.id run) ≤ 200 = omega (arith, length-put_le m run.id run, b) in
        rw other (elim (Bool-cases (ltb 200 (length ((j, w) ∷ put m run.id run)))) [
          | inl over ↦ rw over (subst Found (sym (prune_small (put m run.id run) fits)) (found m))
          | inr room ↦ rw room (rw other (found m))
        ])

    stored : (m : Dict TaskRun) → length m ≤ 200 → get (prune (put m run.id run)) run.id ≡ some run
    stored m b = elim (Option-cases (get m run.id)) [
      | inr (old, g) ↦
          subst Found
            (sym (
              prune_small (put m run.id run)
                (omega (arith, length-put_known m run.id run old g, b))))
            (found m)
      | inl g ↦ new_run m g b
    ]

finish_orphan-closed :
    (now : ℕ) (run : TaskRun) (o : Option Outcome)
    → is_open (finish_orphan now run o).status ≡ false
unfolding finish_orphan
finish_orphan-closed now run none = refl
finish_orphan-closed now run (some (did_succeed r)) = refl
finish_orphan-closed now run (some (did_fail e)) = refl

reap-closed :
    (resolve : TaskRun → Option Outcome) (now : ℕ) (run : TaskRun)
    → is_open (reap resolve now run).status ≡ false
reap-closed resolve now run = elim (Bool-cases (is_open run.status)) [
  | inl o ↦ rw o (finish_orphan-closed now run (resolve run))
  | inr c ↦ rw c c
]

all_closed :
    (resolve : TaskRun → Option Outcome) (now : ℕ) (m : Dict TaskRun)
    → any (λ run. is_open run.status) (values (update_all (reap resolve now) m)) ≡ false
unfolding any values update_all
all_closed resolve now [] = refl
all_closed resolve now ((k, run) ∷ m) = rw (reap-closed resolve now run, all_closed resolve now m)

reap_orphans-closed :
    (resolve : TaskRun → Option Outcome) (now : ℕ) (s : TaskStore)
    → any (λ run. is_open run.status) (values (reap_orphans resolve now s).runs) ≡ false
unfolding reap_orphans
reap_orphans-closed resolve now s =
    elim (Bool-cases (any (λ run. is_open run.status) (values s.runs))) [
      | inl e ↦ rw (e, reap_orphans) (all_closed resolve now s.runs)
      | inr e ↦ rw (e, reap_orphans) e
    ]

-- After a start no run is pending or running, whatever the file holds and the resolver says.
pub init-closed :
    (resolve : TaskRun → Option Outcome) (stored : List TaskRun) (now : ℕ)
    → any (λ run. is_open run.status) (values (init resolve stored now).runs) ≡ false
unfolding init
init-closed resolve stored now =
    reap_orphans-closed resolve now (record { runs = load [] stored; file = stored })
