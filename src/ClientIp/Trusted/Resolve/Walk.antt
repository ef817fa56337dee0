-- ===== src/ClientIp/Trusted/Resolve/Walk.antt =====
-- The walk of `resolveClientIp` in apps/server/src/client-ip.ts, from the right of the chain.
use server_central.Prelude.{
  ◌≡◌, refl, sym, subst, ◌≢◌, ◌∙◌, ap, ◌⊎◌, inl, inr, String, false, List, Option, none, some,
  Bool-cases, Option-cases, ◌++◌, All,
}
use server_central.ClientIp.{Bytes, parse_ip}
use server_central.ClientIp.Trusted.{Cidr, is_trusted, untrusted, right_first, walk}

-- An entry of which the walk says nothing: it is no address, or one of a trusted proxy.
abbrev pub IsSkipped : List Cidr → String → Type 0
IsSkipped trusted entry = untrusted trusted (parse_ip entry) ≡ none

right_first_assoc :
    (a b c : Option Bytes) → right_first a (right_first b c) ≡ right_first (right_first a b) c
right_first_assoc none b c = refl
right_first_assoc (some x) b c = refl

right_first-none : (a : Option Bytes) → right_first a none ≡ a
right_first-none none = refl
right_first-none (some x) = refl

pub walk-append :
    (trusted : List Cidr) (xs ys : List String)
    → walk trusted (xs ++ ys) ≡ right_first (walk trusted ys) (walk trusted xs)
unfolding walk
walk-append trusted List.[] ys = sym (right_first-none (walk trusted ys))
walk-append trusted (List.◌∷◌ x xs) ys =
    ap (λ w. right_first w (untrusted trusted (parse_ip x))) (walk-append trusted xs ys)
    ∙ sym (right_first_assoc (walk trusted ys) (walk trusted xs) _)

-- The walk takes the last entry that is the address of no trusted proxy.
pub record Taken (trusted : List Cidr) (chain : List String) (found : Bytes) : Type 0 where
  pub left : List String
  pub entry : String
  pub right : List String
  pub position : chain ≡ left ++ List.◌∷◌ entry right
  pub address : parse_ip entry ≡ some found
  pub is_foreign : is_trusted (some found) trusted ≡ false
  pub skipped : All (IsSkipped trusted) right

untrusted-some :
    (trusted : List Cidr) (o : Option Bytes) (found : Bytes)
    → untrusted trusted o ≡ some found
    → (o ≡ some found) × (is_trusted (some found) trusted ≡ false)
untrusted-some trusted none found e = cc
untrusted-some trusted (some bytes) found e = elim (Bool-cases (is_trusted (some bytes) trusted)) [
  | inl t ↦ absurd (none-ne-some (rw t at e))
  | inr f ↦
      let same : bytes ≡ found = some-inj (rw f at e) in
      (ap some same, subst (λ b. is_trusted (some b) trusted ≡ false) same f)
]
  where
    none-ne-some : ◌≢◌ {A = Option Bytes} none (some found)
    none-ne-some p = cc

    some-inj : {a b : Bytes} → some a ≡ some b → a ≡ b
    some-inj p = cc

pub walk_cases :
    (trusted : List Cidr) (chain : List String)
    → (All (IsSkipped trusted) chain × (walk trusted chain ≡ none))
      ⊎ ((found : Bytes) × (walk trusted chain ≡ some found) × Taken trusted chain found)
unfolding walk
walk_cases trusted List.[] = inl (tt, refl)
walk_cases trusted (List.◌∷◌ x xs) = elim (walk_cases trusted xs) [
  | inl (none_right, e) ↦ elim (Option-cases (untrusted trusted (parse_ip x))) [
    | inl skip ↦ inl ((skip, none_right), rw (e, skip) refl)
    | inr (found, here) ↦
        let (a, b) = untrusted-some trusted (parse_ip x) found here in
        inr (
          found,
          rw (e, here) refl,
          record {
            left = List.[];
            entry = x;
            right = xs;
            position = refl;
            address = a;
            is_foreign = b;
            skipped = none_right;
          },
        )
  ]
  | inr (found, e, t) ↦ inr (
    found,
    rw e refl,
    record {
      left = List.◌∷◌ x t.left;
      entry = t.entry;
      right = t.right;
      position = ap (λ r. List.◌∷◌ x r) t.position;
      address = t.address;
      is_foreign = t.is_foreign;
      skipped = t.skipped;
    },
  )
]
