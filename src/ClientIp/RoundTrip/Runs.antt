-- ===== src/ClientIp/RoundTrip/Runs.antt =====
-- The run of zeros that `format` of apps/server/src/client-ip.ts replaces by `::`.
use mathlib.Core.List.{append_assoc}
use server_central.Prelude.{
  ℕ, zero, suc, ◌+◌, ◌*◌, ◌/◌, ◌%◌, ◌-◌, ◌<◌, ◌≡◌, refl, sym, ap, ◌∙◌, Bool, true, false, List, [],
  ◌∷◌, ◌++◌, ◌==◌, ltb, arith, Bool-cases, inl, inr, All, length, length-append, some,
  if◌then◌else◌,
}
use server_central.ClientIp.{
  Run, zero_run, longest_run, zeros, take, drop, fill, group_bytes, groups_of_bytes,
}

-- The run is one of zeros, and these are what stands before it and after it.
pub record IsZeroRun (gs : List ℕ) (run : Run) : Type 0 where
  pub before : List ℕ
  pub after : List ℕ
  pub position : gs ≡ before ++ (zeros run.size ++ after)
  pub start : length before ≡ run.start

zero_run-drop : (gs : List ℕ) → gs ≡ zeros (zero_run gs) ++ drop (zero_run gs) gs
unfolding zero_run zeros drop
zero_run-drop [] = refl
zero_run-drop (g ∷ gs) = elim (Bool-cases (g == 0)) [
  | inl e ↦ let z : g ≡ 0 = ground arith in rw (e, z) (ap (λ r. 0 ∷ r) (zero_run-drop gs))
  | inr e ↦ rw e refl
]

length-zeros : (n : ℕ) → length (zeros n) ≡ n
unfolding zeros
length-zeros zero = refl
length-zeros (suc n) = ap suc (length-zeros n)

choose-IsZeroRun :
    (gs : List ℕ) (b : Bool) (r best : Run)
    → IsZeroRun gs r
    → IsZeroRun gs best
    → IsZeroRun gs (if b then r else best)
choose-IsZeroRun gs true r best h k = h
choose-IsZeroRun gs false r best h k = k

longest_run-IsZeroRun_from :
    (gs : List ℕ) (i : ℕ) (best : Run) (before rest : List ℕ)
    → gs ≡ before ++ rest
    → length before ≡ i
    → IsZeroRun gs best
    → IsZeroRun gs (longest_run i best rest)
unfolding longest_run
longest_run-IsZeroRun_from gs i best before [] e l b = b
longest_run-IsZeroRun_from gs i best before (g ∷ rest) e l b =
    let here : Run = record { start = i; size = zero_run (g ∷ rest) } in
    let zeros_here : IsZeroRun gs here = record {
      before = before;
      after = drop (zero_run (g ∷ rest)) (g ∷ rest);
      position = e ∙ ap (λ r. before ++ r) (zero_run-drop (g ∷ rest));
      start = l;
    } in
    longest_run-IsZeroRun_from gs (i + 1) _ (before ++ (g ∷ [])) rest
      (e ∙ sym (append_assoc before (g ∷ []) rest))
      (omega (arith, l, length-append before (g ∷ [])))
      (choose-IsZeroRun gs (ltb best.size (zero_run (g ∷ rest))) here best zeros_here b)

abbrev pub no_run : Run
no_run = record { start = 0; size = 0 }

pub longest_run-IsZeroRun : (gs : List ℕ) → IsZeroRun gs (longest_run 0 no_run gs)
unfolding zeros
longest_run-IsZeroRun gs =
    longest_run-IsZeroRun_from gs 0 no_run [] gs refl refl
      (record { before = []; after = gs; position = refl; start = refl })

take-append : (n : ℕ) (xs ys : List ℕ) → length xs ≡ n → take n (xs ++ ys) ≡ xs
unfolding take
take-append zero [] ys e = refl
take-append zero (x ∷ xs) ys e = absurd (omega arith)
take-append (suc n) [] ys e = absurd (omega arith)
take-append (suc n) (x ∷ xs) ys e = ap (λ r. x ∷ r) (take-append n xs ys (omega arith))

drop-append : (n : ℕ) (xs ys : List ℕ) → length xs ≡ n → drop n (xs ++ ys) ≡ ys
unfolding drop
drop-append zero [] ys e = refl
drop-append zero (x ∷ xs) ys e = absurd (omega arith)
drop-append (suc n) [] ys e = absurd (omega arith)
drop-append (suc n) (x ∷ xs) ys e = drop-append n xs ys (omega arith)

-- Filling up what is left of eight groups without a run of zeros gives the eight groups.
pub fill-IsZeroRun :
    (gs : List ℕ) (run : Run)
    → length gs ≡ 8
    → IsZeroRun gs run
    → ltb run.size 2 ≡ false
    → fill (some (take run.start gs)) (some (drop (run.start + run.size) gs)) ≡ some gs
unfolding fill
fill-IsZeroRun gs run l z h =
    let all : length gs ≡ length z.before + (run.size + length z.after) =
      ap length z.position
      ∙ length-append z.before (zeros run.size ++ z.after)
      ∙ ap (λ n. length z.before + n)
          (length-append (zeros run.size) z.after
            ∙ ap (λ n. n + length z.after) (length-zeros run.size)) in
    let left : take run.start gs ≡ z.before =
      ap (take run.start) z.position
      ∙ take-append run.start z.before (zeros run.size ++ z.after) z.start in
    let right : drop (run.start + run.size) gs ≡ z.after =
      ap (drop (run.start + run.size))
        (z.position ∙ sym (append_assoc z.before (zeros run.size) z.after))
      ∙ drop-append (run.start + run.size) (z.before ++ zeros run.size) z.after (
          omega (arith, z.start, length-append z.before (zeros run.size), length-zeros run.size)) in
    let room : ltb (length z.before + length z.after) 8 ≡ true = ground arith in
    let size : 8 - (length z.before + length z.after) ≡ run.size = ground arith in
    rw (left, right, room, size) (ap some (sym z.position))

pub group_bytes-groups_of_bytes :
    (bs : List ℕ) (k : ℕ)
    → length bs ≡ 2 * k
    → All (λ b. b < 256) bs
    → group_bytes (groups_of_bytes bs) ≡ bs
unfolding group_bytes groups_of_bytes
group_bytes-groups_of_bytes [] k l h = refl
group_bytes-groups_of_bytes (x ∷ []) k l h = absurd (omega arith)
group_bytes-groups_of_bytes (x ∷ y ∷ bs) k l (hx, h) =
    let hy = h.0 in
    let high : (x * 256 + y) / 256 ≡ x = omega arith in
    let low : (x * 256 + y) % 256 ≡ y = omega arith in
    rw (high, low, group_bytes-groups_of_bytes bs (k - 1) (omega arith) h.1) refl

pub groups_of_bytes-bounded :
    (bs : List ℕ) → All (λ b. b < 256) bs → All (λ g. g < 65536) (groups_of_bytes bs)
unfolding groups_of_bytes
groups_of_bytes-bounded [] h = tt
groups_of_bytes-bounded (x ∷ []) h = tt
groups_of_bytes-bounded (x ∷ y ∷ bs) (hx, h) = (omega (arith, h.0), groups_of_bytes-bounded bs h.1)
