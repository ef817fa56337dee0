-- ===== src/Permission/Defs.antt =====
-- shared/src/permissions.ts: the record types. A permission node is a text.
use server_central.Prelude.{String, Bool, List, Option}

-- `PermissionDef`, with the key under which the registry holds it as `id`. The optional fields
-- `tasks` and `events` are empty where the source leaves them out, as its readers take them, and
-- `sensitive` is false.
pub record PermissionDef : Type 0 where
  pub id : String
  pub label : String
  pub description : String
  pub ops : List String
  pub tasks : List String
  pub events : List String
  pub escalation : Option String
  pub sensitive : Bool

pub record RoleDef : Type 0 where
  pub id : String
  pub name : String
  pub description : String
  pub permissions : List String
  pub seeded : Bool

pub record PermissionSubject : Type 0 where
  pub is_owner : Bool
  pub permissions : List String
