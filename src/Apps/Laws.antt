-- ===== src/Apps/Laws.antt =====
-- The invariant of the App registry of apps/server/src/features/apps/store.ts.
use text.Mathlib.TextEquality.{eq_iff}
use server_central.Prelude.{
  ℕ, String, Bool, true, false, not, List, [], Option, none, some, ◌≡◌, refl, sym, subst, ◌∙◌, inl,
  inr, ok, is_empty, trim, same_option, IsNodup, All, arith, Option-cases, ltb, ◌===◌, Ensures,
  ensured, Ensures-bind, Ensures-ensure,
}
use server_central.Prelude.Dict.{get, put, All-put, All-remove, All-get}
use server_central.Prelude.Dict.Injective.{
  IsInjective, put-IsInjective, remove-IsInjective, any-values-get,
}
use server_central.Prelude.Clean.{clean-IsNodup, clean-All}
use server_central.Apps.{
  App, AppStore, init, persist, assert_name, assert_slug, assert_roles, check_role, is_segment,
  assert_slug_free, slug_taken_by_other, create, update, update_existing, delete,
}

-- A name that is not empty, a slug and role names of one segment each, no role twice.
pub record AppIsSound (a : App) : Type 0 where
  pub named : is_empty a.name ≡ false
  pub slug : is_segment a.slug ≡ true
  pub roles : All (λ r. is_segment r ≡ true) a.roles
  pub distinct : IsNodup a.roles

abbrev Entry : String → App → Type 0
Entry k a = (a.id ≡ k) × AppIsSound a

-- Each app stands under its id and is sound, no two have one slug, and the file holds the apps.
pub record IsRegistry (s : AppStore) : Type 0 where
  pub entries : All (λ e. Entry e.0 e.1) s.apps
  pub slugs : IsInjective (λ a. some a.slug) s.apps
  pub saved : s.file ≡ s.apps

assert_name-named : (raw : String) → Ensures (λ name. is_empty name ≡ false) (assert_name raw)
unfolding assert_name
assert_name-named raw =
    Ensures-ensure (λ name. is_empty name ≡ false) (not (is_empty (trim raw))) _ (ok (trim raw))
      λ h. ground arith

module _ (to_lower_case : String → String) where
  assert_slug-segment :
      (raw : String) → Ensures (λ slug. is_segment slug ≡ true) (assert_slug to_lower_case raw)
  unfolding assert_slug
  assert_slug-segment raw =
      Ensures-ensure (λ slug. is_segment slug ≡ true) (is_segment (to_lower_case (trim raw))) _
        (ok (to_lower_case (trim raw))) λ h. h

  check_role-segment :
      (raw role : String) → check_role to_lower_case raw ≡ ok (some role) → is_segment role ≡ true
  unfolding check_role
  check_role-segment raw role e = ground arith

  assert_roles_sound :
      (raws roles : List String)
      → assert_roles to_lower_case raws ≡ ok roles
      → All (λ r. is_segment r ≡ true) roles × IsNodup roles
  unfolding assert_roles
  assert_roles_sound raws roles e = (
    clean-All (check_role to_lower_case) (λ r. is_segment r ≡ true) check_role-segment [] raws tt e,
    clean-IsNodup (check_role to_lower_case) [] raws tt e,
  )

-- Another app that has the slug stands in the way.
slug_free :
    (s : AppStore) (slug : String) (except_id : Option String) (j : String) (w : App)
    → IsRegistry s
    → slug_taken_by_other s slug except_id ≡ false
    → get s.apps j ≡ some w
    → w.slug ≡ slug
    → same_option (some j) except_id ≡ true
unfolding slug_taken_by_other
slug_free s slug except_id j w sound free g e =
    let id = (All-get Entry s.apps j w sound.entries g).0 in
    let miss = any-values-get _ s.apps j w free g in
    let same : (w.slug === slug) ≡ true = (eq_iff w.slug slug).1 e in
    subst (λ k. same_option (some k) except_id ≡ true) id (ground arith)

put-IsRegistry :
    (s : AppStore) (app : App) (except_id : Option String)
    → IsRegistry s
    → AppIsSound app
    → slug_taken_by_other s app.slug except_id ≡ false
    → ((j : String) → same_option (some j) except_id ≡ true → app.id ≡ j)
    → IsRegistry (persist (record s { apps = put s.apps app.id app }))
put-IsRegistry s app except_id sound ok_app free own = record {
  entries = All-put Entry s.apps app.id app sound.entries (refl, ok_app);
  slugs =
      put-IsInjective (λ a. some a.slug) s.apps app.id app
        (λ j w x g fw fv. own j (slug_free s app.slug except_id j w sound free g (cc))) sound.slugs;
  saved = refl;
}

module _ (to_lower_case : String → String) where
  create-Ensures :
      (uuid name slug : String) (roles : List String) (require_role : Bool) (now : ℕ) (s : AppStore)
      → IsRegistry s
      → Ensures (λ r. IsRegistry r.1) (create to_lower_case uuid name slug roles require_role now s)
  unfolding create assert_slug_free
  create-Ensures uuid name slug roles require_role now s sound =
      Ensures-bind (λ r. IsRegistry r.1) (assert_name name) _
        λ n en.
          Ensures-bind (λ r. IsRegistry r.1) (assert_slug to_lower_case slug) _
            λ sl es.
              Ensures-bind (λ r. IsRegistry r.1) (assert_roles to_lower_case roles) _
                λ rs er.
                  Ensures-ensure (λ r. IsRegistry r.1) (not (slug_taken_by_other s sl none)) _ _
                    λ free.
                      put-IsRegistry s _ none sound
                        (record {
                          named = ensured _ (assert_name name) (assert_name-named name) en;
                          slug =
                              ensured _ (assert_slug to_lower_case slug)
                                (assert_slug-segment to_lower_case slug) es;
                          roles = (assert_roles_sound to_lower_case roles rs er).0;
                          distinct = (assert_roles_sound to_lower_case roles rs er).1;
                        })
                        (ground arith) (λ j e. cc)

  update_existing-Ensures :
      (existing next : App) (s : AppStore)
      → IsRegistry s
      → existing.id ≡ next.id
      → Ensures IsRegistry (update_existing to_lower_case existing next s)
  unfolding update_existing assert_slug_free
  update_existing-Ensures existing next s sound same =
      Ensures-bind IsRegistry (assert_slug to_lower_case next.slug) _ λ sl es.
        Ensures-ensure IsRegistry (not (slug_taken_by_other s sl (some next.id))) _ _ λ free.
          Ensures-bind IsRegistry (assert_name next.name) _ λ n en.
            Ensures-bind IsRegistry (assert_roles to_lower_case next.roles) _ λ rs er.
              let app : App = record existing {
                name = n;
                slug = sl;
                roles = rs;
                require_role = next.require_role;
              } in
              subst (λ key. IsRegistry (persist (record s { apps = put s.apps key app }))) same
                (put-IsRegistry s app (some next.id) sound
                  (record {
                    named = ensured _ (assert_name next.name) (assert_name-named next.name) en;
                    slug =
                        ensured _ (assert_slug to_lower_case next.slug)
                          (assert_slug-segment to_lower_case next.slug) es;
                    roles = (assert_roles_sound to_lower_case next.roles rs er).0;
                    distinct = (assert_roles_sound to_lower_case next.roles rs er).1;
                  })
                  (ground arith) (λ j e. same ∙ sym ((eq_iff j next.id).0 e)))

  update-Ensures :
      (next : App) (s : AppStore) → IsRegistry s → Ensures IsRegistry (update to_lower_case next s)
  unfolding update
  update-Ensures next s sound = elim (Option-cases (get s.apps next.id)) [
    | inl e ↦ rw (e, Ensures) tt
    | inr (existing, e) ↦
        rw (e, Ensures)
          (update_existing-Ensures existing next s sound
            (All-get Entry s.apps next.id existing sound.entries e).0)
  ]

delete-Ensures :
    (app_id : String) (n : ℕ) (s : AppStore) → IsRegistry s → Ensures IsRegistry (delete app_id n s)
unfolding delete
delete-Ensures app_id n s sound = elim (Option-cases (get s.apps app_id)) [
  | inl e ↦ rw (e, Ensures) sound
  | inr (app, e) ↦
      rw (e, Ensures)
        (Ensures-ensure IsRegistry (not (ltb 0 n)) _ _ λ free. record {
          entries = All-remove Entry s.apps app_id sound.entries;
          slugs = remove-IsInjective (λ a. some a.slug) s.apps app_id sound.slugs;
          saved = refl;
        })
]

-- The registries that the operations reach from an empty one, with restarts between them.
pub data Reach (to_lower_case : String → String) : AppStore → Type 0 where
  started : Reach to_lower_case (init none)
  restarted : {s : AppStore} → Reach to_lower_case s → Reach to_lower_case (init (some s.file))
  created :
      {s t : AppStore} (uuid name slug : String) (roles : List String) (require_role : Bool)
      (now : ℕ) (app : App)
      → Reach to_lower_case s
      → create to_lower_case uuid name slug roles require_role now s ≡ ok (app, t)
      → Reach to_lower_case t
  updated :
      {s t : AppStore} (next : App)
      → Reach to_lower_case s
      → update to_lower_case next s ≡ ok t
      → Reach to_lower_case t
  deleted :
      {s t : AppStore} (app_id : String) (references : ℕ)
      → Reach to_lower_case s
      → delete app_id references s ≡ ok t
      → Reach to_lower_case t

-- In every registry that the operations reach each app stands under its id, no two apps share a slug,
-- slugs and role names are single lowercase segments, no role is declared twice, and the file holds
-- the same.
pub Reach-IsRegistry :
    (to_lower_case : String → String) (s : AppStore) → Reach to_lower_case s → IsRegistry s
unfolding init get
Reach-IsRegistry f s started = record {
  entries = tt;
  slugs = λ k j v w x gk gj fv fw. cc;
  saved = refl;
}
Reach-IsRegistry f s (restarted {s = t} r) =
    let h = Reach-IsRegistry f t r in
    rw h.saved (record { entries = h.entries; slugs = h.slugs; saved = refl })
Reach-IsRegistry f s (created {s = t} uuid name slug roles q now app r e) =
    ensured (λ x. IsRegistry x.1) _
      (create-Ensures f uuid name slug roles q now t (Reach-IsRegistry f t r)) e
Reach-IsRegistry f s (updated {s = t} next r e) =
    ensured IsRegistry _ (update-Ensures f next t (Reach-IsRegistry f t r)) e
Reach-IsRegistry f s (deleted {s = t} app_id n r e) =
    ensured IsRegistry _ (delete-Ensures app_id n t (Reach-IsRegistry f t r)) e
