-- ===== src/Oidc/Device/Code/Slips.antt =====
-- Two codes differ enough exactly if no single slip of the typist turns one into the other.
use Prim.Native.String.{String, [], ◌∷◌}
use Prim.Native.Char.{Char, code}
use mathlib.Core.Path.{ap₂}
use text.Mathlib.TextEquality.{Char-path}
use server_central.Prelude.{
  ℕ, ◌+◌, ◌<◌, false, List, none, some, ◌≡◌, refl, sym, ◌⊎◌, inl, inr, ◌↔◌, ◌==◌, arith, Bool-cases,
  subst,
}
use server_central.Oidc.Device.Code.{Difference, differences, far_apart, differs_enough}

-- A wrong key at one place, or two neighbours swapped.
pub data Slip : String → String → Type 0 where
  wrong_key : (c d : Char) (s : String) → Slip (c ∷ s) (d ∷ s)
  swapped : (c d : Char) (s : String) → Slip (c ∷ d ∷ s) (d ∷ c ∷ s)
  later : (c : Char) {a b : String} → Slip a b → Slip (c ∷ a) (c ∷ b)

pub Slip-sym : {a b : String} → Slip a b → Slip b a
Slip-sym (wrong_key c d s) = wrong_key d c s
Slip-sym (swapped c d s) = swapped d c s
Slip-sym (later c s) = later c (Slip-sym s)

differences_same :
    (i : ℕ) (found : List Difference) (s : String) → differences i found s s ≡ some found
unfolding differences
differences_same i found [] = refl
differences_same i found (c ∷ s) = ground (arith, differences_same (i + 1) found s)

-- As many characters in the one as in the other.
abbrev pub SameLength : String → String → Type 0
SameLength [] [] = Unit
SameLength [] (d ∷ b) = ⊥
SameLength (c ∷ a) [] = ⊥
SameLength (c ∷ a) (d ∷ b) = SameLength a b

abbrev one : Difference → List Difference
one x = List.◌∷◌ x List.[]

abbrev two : Difference → Difference → List Difference
two x y = List.◌∷◌ x (one y)

Slip-far_apart : {a b : String} (i : ℕ) → Slip a b → far_apart (differences i List.[] a b) ≡ false
unfolding differences far_apart
Slip-far_apart i (wrong_key c d s) = elim (Bool-cases (code c == code d)) [
  | inl e ↦ rw (e, differences) (rw (differences_same (i + 1) List.[] s))
  | inr e ↦ rw (e, differences) (rw (differences_same (i + 1) _ s))
]
Slip-far_apart i (swapped c d s) = elim (Bool-cases (code d == code c)) [
  | inl e ↦ ground (arith, differences_same (i + 1 + 1) List.[] s)
  | inr e ↦
      let x : Difference = record { at = i; left = code c; right = some (code d) } in
      let y : Difference = record { at = i + 1; left = code d; right = some (code c) } in
      ground (arith, differences_same (i + 1 + 1) (two x y) s)
]
Slip-far_apart i (later c s) = ground (arith, Slip-far_apart (i + 1) s)

-- Two texts whose heads agree and whose tails agree or slip.
cons_same : {c d : Char} {a b : String} → code c ≡ code d → a ≡ b → (c ∷ a) ≡ (d ∷ b)
cons_same {c} {d} h e = ap₂ ◌∷◌ (Char-path c d h) e

-- With two differences found, a third ends the loop.
two_found :
    (i : ℕ) (x y : Difference) (a b : String)
    → SameLength a b
    → ((a ≡ b) × (differences i (two x y) a b ≡ some (two x y)))
      ⊎ (differences i (two x y) a b ≡ none)
unfolding differences
two_found i x y [] [] h = inl (refl, refl)
two_found i x y [] (d ∷ b) h = absurd h
two_found i x y (c ∷ a) [] h = absurd h
two_found i x y (c ∷ a) (d ∷ b) h = elim (Bool-cases (code c == code d)) [
  | inr e ↦ inr (rw (e, differences))
  | inl e ↦ elim (two_found (i + 1) x y a b h) [
    | inl (t, r) ↦ inl (cons_same (ground arith) t, rw (e, differences) r)
    | inr t ↦ inr (rw (e, differences) t)
  ]
]

-- With one difference found further back, any other keeps the codes apart.
one_found_far :
    (i : ℕ) (x : Difference) (a b : String)
    → SameLength a b
    → x.at + 1 < i
    → far_apart (differences i (one x) a b) ≡ false
    → a ≡ b
unfolding differences far_apart
one_found_far i x [] [] h l e = refl
one_found_far i x [] (d ∷ b) h l e = absurd h
one_found_far i x (c ∷ a) [] h l e = absurd h
one_found_far i x (c ∷ a) (d ∷ b) h l e = elim (Bool-cases (code c == code d)) [
  | inl q ↦
      cons_same (ground arith)
        (one_found_far (i + 1) x a b h (omega arith) (rw (q, differences) at e))
  | inr q ↦
      let y : Difference = record { at = i; left = code c; right = some (code d) } in
      let e' : far_apart (differences (i + 1) (two x y) a b) ≡ false = rw (q, differences) at e in
      elim (two_found (i + 1) x y a b h) [ inl (t, r) ↦ ground arith | inr t ↦ ground arith ]
]

-- What is left of two codes behind a first difference.
data Tail (p q : Char) : String → String → Type 0 where
  agree : {a b : String} → a ≡ b → Tail p q a b
  swap : (c d : Char) (s : String) → code c ≡ code q → code d ≡ code p → Tail p q (c ∷ s) (d ∷ s)

one_found :
    (i : ℕ) (p q : Char) (a b : String)
    → SameLength a b
    → far_apart
        (differences (i + 1) (one (record { at = i; left = code p; right = some (code q) })) a b)
      ≡ false
    → Tail p q a b
unfolding differences far_apart
one_found i p q [] [] h e = agree refl
one_found i p q [] (d ∷ b) h e = absurd h
one_found i p q (c ∷ a) [] h e = absurd h
one_found i p q (c ∷ a) (d ∷ b) h e =
    let x : Difference = record { at = i; left = code p; right = some (code q) } in
    elim (Bool-cases (code c == code d)) [
      | inl s ↦ agree (
          cons_same (ground arith)
            (one_found_far (i + 1 + 1) x a b h (omega arith) (rw (s, differences) at e)))
      | inr s ↦
          let y : Difference = record { at = i + 1; left = code c; right = some (code d) } in
          let e' : far_apart (differences (i + 1 + 1) (two x y) a b) ≡ false =
            rw (s, differences) at e in
          elim (two_found (i + 1 + 1) x y a b h) [
            | inl (t, r) ↦
                subst (λ z. Tail p q (c ∷ a) (d ∷ z)) t (swap c d a (ground arith) (ground arith))
            | inr t ↦ ground arith
          ]
    ]

Slip-of_Tail : (p q : Char) {a b : String} → Tail p q a b → Slip (p ∷ a) (q ∷ b)
Slip-of_Tail p q {a} {b} (agree t) = subst (λ z. Slip (p ∷ a) (q ∷ z)) t (wrong_key p q a)
Slip-of_Tail p q (swap c d s e f) =
    subst (λ z. Slip (p ∷ c ∷ s) (q ∷ z ∷ s)) (sym (Char-path d p f))
      (subst (λ z. Slip (p ∷ z ∷ s) (q ∷ p ∷ s)) (sym (Char-path c q e)) (swapped p q s))

close_cases :
    (i : ℕ) (a b : String)
    → SameLength a b
    → far_apart (differences i List.[] a b) ≡ false
    → (a ≡ b) ⊎ Slip a b
unfolding differences far_apart
close_cases i [] [] h e = inl refl
close_cases i [] (d ∷ b) h e = absurd h
close_cases i (c ∷ a) [] h e = absurd h
close_cases i (c ∷ a) (d ∷ b) h e = elim (Bool-cases (code c == code d)) [
  | inl s ↦
      let same : code c ≡ code d = ground arith in
      elim (close_cases (i + 1) a b h (rw (s, differences) at e)) [
        | inl t ↦ inl (cons_same same t)
        | inr t ↦ inr (subst (λ z. Slip (c ∷ a) (z ∷ b)) (Char-path c d same) (later c t))
      ]
  | inr s ↦ inr (Slip-of_Tail c d (one_found i c d a b h (rw (s, differences) at e)))
]

-- Two codes of one length fail to differ enough exactly if they are the same or a single slip, a
-- wrong key or two neighbours swapped, turns the one into the other.
pub differs_enough_iff :
    (a b : String) → SameLength a b → (differs_enough a b ≡ false) ↔ ((a ≡ b) ⊎ Slip a b)
unfolding differs_enough
differs_enough_iff a b h =
    (close_cases 0 a b h, λ c. elim c [ inl e ↦ same_close a b e | inr s ↦ Slip-far_apart 0 s ])
  where
    same_close : (x y : String) → x ≡ y → far_apart (differences 0 List.[] x y) ≡ false
    same_close x y e =
        subst (λ z. far_apart (differences 0 List.[] x z) ≡ false) e
          (rw (differences_same 0 List.[] x))

-- A slip never leads from one code to another that differs enough from it.
pub Slip-close : {a b : String} → Slip a b → differs_enough a b ≡ false
unfolding differs_enough
Slip-close s = Slip-far_apart 0 s
