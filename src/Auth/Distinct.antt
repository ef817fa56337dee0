-- ===== src/Auth/Distinct.antt =====
-- The invariant of the accounts, and the changes to them that keep it.
use text.Mathlib.TextEquality.{eq_iff}
use text.Mathlib.TextPositions.{eq_refl}
use server_central.Prelude.{
  String, true, false, [], ◌∷◌, Option, none, some, ◌≡◌, refl, sym, ap, ◌∙◌, ◌⊎◌, inl, inr, arith,
  if◌then◌else◌, ◌===◌, any, All, Bool-cases,
}
use server_central.Prelude.Dict.{
  Dict, get, put, remove, values, get-put, get-remove, All-get, All-put, All-remove,
}
use server_central.Prelude.Dict.Keyed.{IsKeyed, put-IsKeyed, remove-IsKeyed}
use server_central.Prelude.Dict.Injective.{
  IsInjective, put-IsInjective, remove-IsInjective, any-values-get,
}
use server_central.Auth.{UserRecord}

-- Not shared by two accounts, since only one may be the owner.
abbrev pub owner_mark : UserRecord → Option String
owner_mark u = if u.is_owner then some "" else none

abbrev pub Entry : String → UserRecord → Type 0
Entry key u = (u.id ≡ key) × (u.role ≡ none)

abbrev pub HasOwner : Dict UserRecord → Type 0
HasOwner m = (key : String) × (u : UserRecord) × (get m key ≡ some u) × (u.is_owner ≡ true)

-- Every account stands under its id in the present format; no two share a name or an address; one of
-- them is the owner, and only one, unless there is none at all.
pub record AreSound (m : Dict UserRecord) : Type 0 where
  pub keyed : IsKeyed m
  pub entries : All (λ e. Entry e.0 e.1) m
  pub names : IsInjective (λ u. some u.username) m
  pub emails : IsInjective (λ u. u.email) m
  pub owners : IsInjective owner_mark m
  pub owned : (m ≡ []) ⊎ HasOwner m

pub none-AreSound : AreSound []
unfolding get
none-AreSound = record {
  keyed = tt;
  entries = tt;
  names = λ k j v w x gk gj fv fw. cc;
  emails = λ k j v w x gk gj fv fw. cc;
  owners = λ k j v w x gk gj fv fw. cc;
  owned = inl refl;
}

-- An account is there, so there is an owner.
found-HasOwner :
    (m : Dict UserRecord) (k : String) (r : UserRecord)
    → get m k ≡ some r
    → (m ≡ []) ⊎ HasOwner m
    → HasOwner m
unfolding get
found-HasOwner [] k r g o = cc
found-HasOwner (e ∷ m) k r g (inl h) = cc
found-HasOwner (e ∷ m) k r g (inr h) = h

-- Whether an account is there whose owner flag is left as it was.
put-HasOwner :
    (m : Dict UserRecord) (k : String) (r r' : UserRecord)
    → get m k ≡ some r
    → r'.is_owner ≡ r.is_owner
    → HasOwner m
    → HasOwner (put m k r')
put-HasOwner m k r r' g o (j, u, gj, t) = elim (Bool-cases (k === j)) [
  | inl same ↦
      let found : get m j ≡ some r = rw ((eq_iff k j).0 same) at g in
      (j, r', rw (get-put m k j r', same), o ∙ ap (λ x. x.is_owner) (some_inj (sym found ∙ gj)) ∙ t)
  | inr other ↦ (j, u, rw (get-put m k j r', other) gj, t)
]
  where
    some_inj : {a b : UserRecord} → ◌≡◌ {A = Option UserRecord} (some a) (some b) → a ≡ b
    some_inj h = cc

-- An account that is there, changed in what is not its identity.
pub changed-AreSound :
    (m : Dict UserRecord) (k : String) (r r' : UserRecord)
    → get m k ≡ some r
    → (r'.id ≡ r.id) × (r'.username ≡ r.username) × (r'.is_owner ≡ r.is_owner) × (r'.role ≡ r.role)
    → ((j : String) (w : UserRecord) (x : String)
        → get m j ≡ some w
        → w.email ≡ some x
        → r'.email ≡ some x
        → k ≡ j)
    → AreSound m
    → AreSound (put m k r')
changed-AreSound m k r r' g (i, n, o, l) fresh h =
    let (key, present) = All-get Entry m k r h.entries g in
    record {
      keyed = put-IsKeyed m k r' h.keyed;
      entries = All-put Entry m k r' h.entries (i ∙ key, l ∙ present);
      names =
          put-IsInjective (λ u. some u.username) m k r'
            (λ j w x gj fw fr. h.names k j r w x g gj (rw (← n) fr) fw) h.names;
      emails = put-IsInjective (λ u. u.email) m k r' fresh h.emails;
      owners =
          put-IsInjective owner_mark m k r'
            (λ j w x gj fw fr. h.owners k j r w x g gj (rw (← o) fr) fw) h.owners;
      owned = inr (put-HasOwner m k r r' g o (found-HasOwner m k r g h.owned));
    }

-- The address is left as it was.
pub same_email :
    (m : Dict UserRecord) (k : String) (r r' : UserRecord)
    → get m k ≡ some r
    → r'.email ≡ r.email
    → AreSound m
    → (j : String) (w : UserRecord) (x : String) → get m j ≡ some w
    → w.email ≡ some x
    → r'.email ≡ some x
    → k ≡ j
same_email m k r r' g e h j w x gj ew er = h.emails k j r w x g gj (sym e ∙ er) ew

-- An account added under a key that is not taken.
pub added-AreSound :
    (m : Dict UserRecord) (r : UserRecord)
    → get m r.id ≡ none
    → r.role ≡ none
    → any (λ u. u.username === r.username) (values m) ≡ false
    → ((j : String) (w : UserRecord) (x : String)
        → get m j ≡ some w
        → w.email ≡ some x
        → r.email ≡ some x
        → r.id ≡ j)
    → ((m ≡ []) × (r.is_owner ≡ true)) ⊎ (HasOwner m × (r.is_owner ≡ false))
    → AreSound m
    → AreSound (put m r.id r)
unfolding get
added-AreSound m r free present new_name new_email owner h = record {
  keyed = put-IsKeyed m r.id r h.keyed;
  entries = All-put Entry m r.id r h.entries (refl, present);
  names =
      put-IsInjective (λ u. some u.username) m r.id r (λ j w x gj fw fr. taken j w x gj fw fr)
        h.names;
  emails = put-IsInjective (λ u. u.email) m r.id r new_email h.emails;
  owners =
      put-IsInjective owner_mark m r.id r (λ j w x gj fw fr. marked owner j w x gj fw fr) h.owners;
  owned = inr (elim owner [
    | inl (e, o) ↦ (r.id, r, rw (get-put m r.id r.id r, eq_refl r.id), o)
    | inr ((j, u, gj, t), o) ↦ (j, u, kept j u gj, t)
  ]);
}
  where
    taken :
        (j : String) (w : UserRecord) (x : String)
        → get m j ≡ some w
        → ◌≡◌ {A = Option String} (some w.username) (some x)
        → ◌≡◌ {A = Option String} (some r.username) (some x)
        → r.id ≡ j
    taken j w x gj fw fr =
        let differ = any-values-get (λ u. u.username === r.username) m j w new_name gj in
        let same : w.username ≡ r.username = cc in ground (arith, eq_iff w.username r.username)

    marked :
        ((m ≡ []) × (r.is_owner ≡ true)) ⊎ (HasOwner m × (r.is_owner ≡ false))
        → (j : String) (w : UserRecord) (x : String) → get m j ≡ some w
        → owner_mark w ≡ some x
        → owner_mark r ≡ some x
        → r.id ≡ j
    marked (inl (e, o)) j w x gj fw fr = cc (rw e at gj)
    marked (inr (p, o)) j w x gj fw fr = cc (rw o at fr)

    at_key : (j : String) → r.id ≡ j → get m j ≡ get m r.id
    at_key j e = rw e

    kept : (j : String) (u : UserRecord) → get m j ≡ some u → get (put m r.id r) j ≡ some u
    kept j u gj = ground (arith, get-put m r.id j r, eq_iff r.id j, at_key j)

-- An account removed that is not the owner.
pub removed-AreSound :
    (m : Dict UserRecord) (k : String) (r : UserRecord)
    → get m k ≡ some r
    → r.is_owner ≡ false
    → AreSound m
    → AreSound (remove m k)
removed-AreSound m k r g o h = record {
  keyed = remove-IsKeyed m k h.keyed;
  entries = All-remove Entry m k h.entries;
  names = remove-IsInjective (λ u. some u.username) m k h.names;
  emails = remove-IsInjective (λ u. u.email) m k h.emails;
  owners = remove-IsInjective owner_mark m k h.owners;
  owned =
      let (j, u, gj, t) = found-HasOwner m k r g h.owned in
      inr (j, u, ground (arith, get-remove m k j, eq_iff k j, at_key j, other u t), t);
}
  where
    at_key : (j : String) → k ≡ j → get m j ≡ get m k
    at_key j e = rw e

    other :
        (u : UserRecord)
        → u.is_owner ≡ true
        → ◌≡◌ {A = Option UserRecord} (some r) (some u)
        → false ≡ true
    other u t e = cc
