-- ===== src/Apps.antt =====
-- apps/server/src/features/apps/store.ts: the App registry. `randomUUID()` and the time enter as
-- arguments, `to_lower_case` is the case mapping. `file` is what `apps-registry.json` holds; writes are
-- taken to succeed. A record without `requireRole` counts as one that has it false.
mod Tests
pub mod Laws
use Prim.Native.String
use server_central.Prelude.{
  ℕ, String, code, Bool, true, false, not, ◌&&◌, ◌||◌, List, [], ◌∷◌, Option, none, some, Result,
  ok, err, ◌>>=◌, ◌>>◌, ensure, if◌then◌else◌, ◌==◌, ◌===◌, ltb, leb, is_empty, trim, any,
  same_option, length, filter,
}
use server_central.Prelude.Text.Split.{all_chars}
use server_central.Prelude.Dict.{Dict, get, put, remove, values}
use server_central.Prelude.Clean.{clean}

pub record App : Type 0 where
  pub id : String
  pub name : String
  pub slug : String
  pub roles : List String
  pub require_role : Bool
  pub created_at : ℕ

pub record AppStore : Type 0 where
  pub apps : Dict App
  pub file : Dict App

pub data AppError : Type 0 where
  app_not_found name_required : AppError
  invalid_slug invalid_role slug_taken : String → AppError
  still_referenced : ℕ → AppError

abbrev pub persist : AppStore → AppStore
persist s = record s { file = s.apps }

unfoldable pub init : Option (Dict App) → AppStore
init none = record { apps = []; file = [] }
init (some stored) = record { apps = stored; file = stored }

unfoldable pub get_app : AppStore → String → Option App
get_app s app_id = get s.apps app_id

abbrev slug_of : Option App → Option String
slug_of none = none
slug_of (some app) = some app.slug

unfoldable pub slug_for : AppStore → Option String → Option String
slug_for s none = none
slug_for s (some app_id) = if is_empty app_id then none else slug_of (get s.apps app_id)

unfoldable pub assert_name : String → Result AppError String
assert_name name = do ensure (not (is_empty (trim name))) name_required; ok (trim name)

abbrev is_lower_alnum : ℕ → Bool
is_lower_alnum c = (leb b'a' c && leb c b'z') || (leb b'0' c && leb c b'9')

-- `/^[a-z0-9][a-z0-9_-]*$/`
unfoldable pub is_segment : String → Bool
unfolding all_chars
is_segment String.[] = false
is_segment (String.◌∷◌ c s) =
    is_lower_alnum (code c) && all_chars (λ x. is_lower_alnum x || x == b'_' || x == b'-') s

-- `assertSlugFree`: no other app has the name.
unfoldable pub slug_taken_by_other : AppStore → String → Option String → Bool
slug_taken_by_other s slug except_id =
    any (λ a. not (same_option (some a.id) except_id) && a.slug === slug) (values s.apps)

unfoldable pub assert_slug_free : AppStore → String → Option String → Result AppError (Unit {0})
unfolding slug_taken_by_other
assert_slug_free s slug except_id =
    ensure (not (slug_taken_by_other s slug except_id)) (slug_taken slug)

module _ (to_lower_case : String → String) where
  unfoldable pub assert_slug : String → Result AppError String
  unfolding is_segment
  assert_slug slug = do
    ensure (is_segment (to_lower_case (trim slug))) (invalid_slug slug)
    ok (to_lower_case (trim slug))

  -- One role name; an empty one is skipped.
  unfoldable pub check_role : String → Result AppError (Option String)
  unfolding is_segment
  check_role raw =
      if is_empty (to_lower_case (trim raw))
      then ok none
      else if is_segment (to_lower_case (trim raw))
      then ok (some (to_lower_case (trim raw)))
      else err (invalid_role raw)

  unfoldable pub assert_roles : List String → Result AppError (List String)
  unfolding check_role clean
  assert_roles roles = clean check_role [] roles

  unfoldable pub create :
      (uuid : String)
      → (name slug : String) → List String
      → (require_role : Bool) → ℕ
      → AppStore
      → Result AppError (App × AppStore)
  unfolding assert_name assert_slug assert_roles assert_slug_free
  create uuid name slug roles require_role now s = do
    name ← assert_name name
    slug ← assert_slug slug
    roles ← assert_roles roles
    assert_slug_free s slug none
    let app : App = record {
      id = uuid;
      name = name;
      slug = slug;
      roles = roles;
      require_role = require_role;
      created_at = now;
    }
    ok (app, persist (record s { apps = put s.apps uuid app }))

  pub update_existing : App → App → AppStore → Result AppError AppStore
  unfolding assert_name assert_slug assert_roles assert_slug_free
  update_existing existing next s = do
    slug ← assert_slug next.slug
    assert_slug_free s slug (some next.id)
    name ← assert_name next.name
    roles ← assert_roles next.roles
    ok (
        persist (record s {
          apps = put s.apps next.id (record existing {
            name = name;
            slug = slug;
            roles = roles;
            require_role = next.require_role;
          });
        }))

  unfoldable pub update : App → AppStore → Result AppError AppStore
  unfolding update_existing
  update next s = elim (get s.apps next.id) [
    | none ↦ err app_not_found
    | some existing ↦ update_existing existing next s
  ]

unfoldable pub delete : String → (reference_count : ℕ) → AppStore → Result AppError AppStore
delete app_id reference_count s = elim (get s.apps app_id) [
  | none ↦ ok s
  | some app ↦ do
    ensure (not (ltb 0 reference_count)) (still_referenced reference_count)
    ok (persist (record s { apps = remove s.apps app_id }))
]
