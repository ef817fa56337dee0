-- ===== src/Permission/Requirements/Exhaustive.antt =====
-- What the derived lookups hold: every operation, task kind and event is classified, and the lookup
-- says of each exactly what the registry says.
use text.Mathlib.TextEquality.{eq_iff}
use server_central.Prelude.{
  String, true, List, [], ◌∷◌, Option, none, some, ok, ◌≡◌, refl, ◌⊎◌, inl, inr, ◌↔◌, arith,
  includes, every, is_some, if◌then◌else◌, Bool-cases, >>=-eq-ok, Option-cases, every-of_includes,
  ap, ◌∙◌,
}
use server_central.Prelude.Dict.{Dict, get, put, get-put}
use server_central.Permission.Defs.{PermissionDef}
use server_central.Permission.Registry.{panel_permissions, public_ops, session_ops}
use server_central.Permission.Api.{api_operations, task_kinds, event_kinds}
use server_central.Permission.Requirements.{
  classify, classify_all, assign_all, unclassified, build_op_requirements, build_task_requirements,
  build_event_requirements, op_requirements, task_kind_permissions, event_permissions,
}

get-classify :
    (out : Dict String) (id : String) (names : List String) {m : Dict String} (k : String)
    → classify out id names ≡ ok m
    → get m k ≡ (if includes names k then some id else get out k)
unfolding classify includes
get-classify out id [] k e = cc
get-classify out id (n ∷ ns) k e = elim (Option-cases (get out n)) [
  | inl free ↦
      ground
        (arith, get-classify (put out n id) id ns k (rw (free, classify) at e), get-put out n k id)
  | inr (first, taken) ↦ cc (rw (taken, classify) at e)
]

-- A name that has a requirement keeps it.
classify-keeps :
    (out : Dict String) (id : String) (names : List String) {m : Dict String} (k r : String)
    → classify out id names ≡ ok m
    → get out k ≡ some r
    → get m k ≡ some r
unfolding classify
classify-keeps out id [] k r e h = cc
classify-keeps out id (n ∷ ns) k r e h = elim (Option-cases (get out n)) [
  | inl free ↦
      classify-keeps (put out n id) id ns k r (rw (free, classify) at e)
        (ground (arith, get-put out n k id, eq_iff n k))
  | inr (first, taken) ↦ cc (rw (taken, classify) at e)
]

module _ (names : PermissionDef → List String) where
  -- A node of the registry that lists a name.
  pub data Lists (k r : String) : List PermissionDef → Type 0 where
    here :
        {d : PermissionDef} {ds : List PermissionDef}
        → d.id ≡ r
        → includes (names d) k ≡ true
        → Lists k r (d ∷ ds)
    there : {d : PermissionDef} {ds : List PermissionDef} → Lists k r ds → Lists k r (d ∷ ds)

  classify_all-keeps :
      (out : Dict String) (ds : List PermissionDef) {m : Dict String} (k r : String)
      → classify_all names out ds ≡ ok m
      → get out k ≡ some r
      → get m k ≡ some r
  unfolding classify_all
  classify_all-keeps out [] k r e h = cc
  classify_all-keeps out (d ∷ ds) k r e h =
      let (next, first, rest) = >>=-eq-ok (classify out d.id (names d)) _ e in
      classify_all-keeps next ds k r rest (classify-keeps out d.id (names d) k r first h)

  classify_all_complete :
      {k r : String} (out : Dict String) {ds : List PermissionDef} {m : Dict String}
      → Lists k r ds
      → classify_all names out ds ≡ ok m
      → get m k ≡ some r
  unfolding classify_all
  classify_all_complete out {ds = []} l e = elim l [ ]
  classify_all_complete {k} {r} out {ds = d ∷ ds} (here same listed) e =
      let (next, first, rest) = >>=-eq-ok (classify out d.id (names d)) _ e in
      let g = get-classify out d.id (names d) k first in
      classify_all-keeps next ds k r rest (rw listed at g ∙ ap some same)
  classify_all_complete out {ds = d ∷ ds} (there l) e =
      let (next, first, rest) = >>=-eq-ok (classify out d.id (names d)) _ e in
      classify_all_complete next l rest

  classify_all_sound :
      (out : Dict String) (ds : List PermissionDef) {m : Dict String} (k r : String)
      → classify_all names out ds ≡ ok m
      → get m k ≡ some r
      → (get out k ≡ some r) ⊎ Lists k r ds
  unfolding classify_all
  classify_all_sound out [] k r e h = inl (ground arith)
  classify_all_sound out (d ∷ ds) k r e h =
      let (next, first, rest) = >>=-eq-ok (classify out d.id (names d)) _ e in
      elim (classify_all_sound next ds k r rest h) [
        | inl g ↦ elim (Bool-cases (includes (names d) k)) [
          | inl listed ↦ inr (here (ground (arith, get-classify out d.id (names d) k first)) listed)
          | inr other ↦ inl (ground (arith, get-classify out d.id (names d) k first))
        ]
        | inr l ↦ inr (there l)
      ]

-- The registry classifies nothing twice, so the module loads.
builds :
    (build_op_requirements panel_permissions ≡ ok op_requirements)
    × (build_task_requirements panel_permissions ≡ ok task_kind_permissions)
    × (build_event_requirements panel_permissions ≡ ok event_permissions)
unfolding op_requirements task_kind_permissions event_permissions get put panel_permissions
    public_ops session_ops
builds = (refl, refl, refl)

get-assign_all :
    (out : Dict String) (r : String) (ops : List String) (k : String)
    → get (assign_all out r ops) k ≡ (if includes ops k then some r else get out k)
unfolding assign_all includes
get-assign_all out r [] k = refl
get-assign_all out r (op ∷ ops) k =
    ground (arith, get-assign_all (put out op r) r ops k, get-put out op k r)

pub get-unclassified :
    (k : String)
    → get unclassified k ≡ (
        if includes session_ops k
        then some "authenticated"
        else if includes public_ops k
        then some "public"
        else none)
unfolding unclassified get
get-unclassified k = ground (
  arith,
  get-assign_all (assign_all [] "public" public_ops) "authenticated" session_ops k,
  get-assign_all [] "public" public_ops k,
)

-- An operation has a requirement exactly when this is the rung of a public or a session operation,
-- or a node of the registry that lists the operation.
pub op_requirements_iff :
    (op r : String)
    → (get op_requirements op ≡ some r)
      ↔ ((get unclassified op ≡ some r) ⊎ Lists (λ d. d.ops) op r panel_permissions)
unfolding build_op_requirements
op_requirements_iff op r = (
  classify_all_sound (λ d. d.ops) unclassified panel_permissions op r builds.0,
  λ h. elim h [
    | inl g ↦ classify_all-keeps (λ d. d.ops) unclassified panel_permissions op r builds.0 g
    | inr l ↦ classify_all_complete (λ d. d.ops) unclassified l builds.0
  ],
)

pub task_kind_permissions_iff :
    (kind r : String)
    → (get task_kind_permissions kind ≡ some r) ↔ Lists (λ d. d.tasks) kind r panel_permissions
unfolding build_task_requirements get
task_kind_permissions_iff kind r = (
  λ g. elim (classify_all_sound (λ d. d.tasks) [] panel_permissions kind r builds.1 g) [
    | inl e ↦ cc
    | inr l ↦ l
  ],
  λ l. classify_all_complete (λ d. d.tasks) [] l builds.1,
)

classified_ops : every (λ op. is_some (get op_requirements op)) api_operations ≡ true
unfolding op_requirements get put every api_operations panel_permissions public_ops session_ops
classified_ops = refl

classified_tasks : every (λ k. is_some (get task_kind_permissions k)) task_kinds ≡ true
unfolding task_kind_permissions get put every task_kinds panel_permissions
classified_tasks = refl

classified_events : every (λ k. is_some (get event_permissions k)) event_kinds ≡ true
unfolding event_permissions get put every event_kinds panel_permissions
classified_events = refl

is_some-witness : (o : Option String) → is_some o ≡ true → (r : String) × (o ≡ some r)
is_some-witness none h = cc
is_some-witness (some r) h = (r, refl)

-- Every operation that the API declares has a requirement.
pub op_requirements_total :
    (op : String)
    → includes api_operations op ≡ true
    → (r : String) × (get op_requirements op ≡ some r)
op_requirements_total op i =
    is_some-witness _ (every-of_includes _ api_operations op classified_ops i)

-- Every task kind requires a node.
pub task_kind_permissions_total :
    (kind : String)
    → includes task_kinds kind ≡ true
    → (r : String) × (get task_kind_permissions kind ≡ some r)
task_kind_permissions_total kind i =
    is_some-witness _ (every-of_includes _ task_kinds kind classified_tasks i)

-- Every pushed event requires a node.
pub event_permissions_total :
    (kind : String)
    → includes event_kinds kind ≡ true
    → (r : String) × (get event_permissions kind ≡ some r)
event_permissions_total kind i =
    is_some-witness _ (every-of_includes _ event_kinds kind classified_events i)
