-- ===== src/Apps/Tests.antt =====
-- Runs of apps/server/src/features/apps/store.ts, and the witnesses of its theorems.
use server_central.Prelude.{includes, String, true, [], ◌∷◌, none, ◌≡◌, refl, ok, err, trim, any}
use server_central.Prelude.Dict.{get, put, values}
use server_central.Prelude.Clean.{clean}
use server_central.Apps.{App, AppStore, init, create, delete, still_referenced}
use server_central.Apps.Laws.{started, created, IsRegistry, Reach-IsRegistry}

abbrev same : String → String
same s = s

abbrev immich : App
immich = record {
  id = "a1";
  name = "Immich";
  slug = "immich";
  roles = "admin" ∷ "user" ∷ [];
  require_role = true;
  created_at = 7;
}

abbrev one : AppStore
one = record { apps = ("a1", immich) ∷ []; file = ("a1", immich) ∷ [] }

created_run :
    create same "a1" " Immich " "immich" ("admin" ∷ "user" ∷ "" ∷ "admin" ∷ []) true 7 (init none)
    ≡ ok (immich, one)
unfolding create init trim clean any put values includes
created_run = refl

refused_run : delete "a1" 2 one ≡ err (still_referenced 2)
unfolding delete get
refused_run = refl

Reach-IsRegistry_example : IsRegistry one
Reach-IsRegistry_example = Reach-IsRegistry same one (
    created "a1" " Immich " "immich" ("admin" ∷ "user" ∷ "" ∷ "admin" ∷ []) true 7 immich started
      created_run)
