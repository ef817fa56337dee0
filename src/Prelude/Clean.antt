-- ===== src/Prelude/Clean.antt =====
-- The loop that several stores share: each item of a list is checked, which may throw, may skip it,
-- or may give its cleaned form, and a form that is not there yet is pushed.
use mathlib.Core.Path.{◌≡◌, refl, subst}
use mathlib.Core.Logic.{inl, inr}
use mathlib.Core.Option.{Option, none, some}
use mathlib.Core.List.{List, [], ◌∷◌, ◌++◌}
use Prim.Native.String.{String}
use server_central.Prelude.Tests.{Result, ok, ◌>>=◌, >>=-eq-ok, if◌then◌else◌, Bool-cases}
use server_central.Prelude.Lists.{includes, push_new, push_new-IsNodup, IsNodup, All, All-append}

-- `if (!out.includes(x)) out.push(x)`, and nothing for an item that is skipped.
abbrev pub push_checked : List String → Option String → List String
push_checked out none = out
push_checked out (some x) = if includes out x then out else out ++ x ∷ []

module _ {E : Type 0} (check : String → Result E (Option String)) where
  unfoldable pub clean : List String → List String → Result E (List String)
  clean out [] = ok out
  clean out (raw ∷ raws) = do checked ← check raw; clean (push_checked out checked) raws

push_checked-IsNodup :
    (out : List String) (o : Option String) → IsNodup out → IsNodup (push_checked out o)
unfolding push_new
push_checked-IsNodup out none n = n
push_checked-IsNodup out (some x) n = push_new-IsNodup out (x ∷ []) n

push_checked-All :
    (P : String → Type 0) (out : List String) (o : Option String)
    → All P out
    → ((x : String) → o ≡ some x → P x)
    → All P (push_checked out o)
push_checked-All P out none h k = h
push_checked-All P out (some x) h k = elim (Bool-cases (includes out x)) [
  | inl old ↦ rw old h
  | inr new ↦ rw new (All-append P out (x ∷ []) h (k x refl, tt))
]

module _ {E : Type 0} (check : String → Result E (Option String)) where
  pub clean-IsNodup :
      (out raws : List String) {res : List String}
      → IsNodup out
      → clean check out raws ≡ ok res
      → IsNodup res
  unfolding clean
  clean-IsNodup out [] n e = subst IsNodup (cc) n
  clean-IsNodup out (raw ∷ raws) n e =
      let (checked, c, rest) = >>=-eq-ok (check raw) _ e in
      clean-IsNodup (push_checked out checked) raws (push_checked-IsNodup out checked n) rest

  -- What the check guarantees of a cleaned item holds of every item of the result.
  pub clean-All :
      (P : String → Type 0)
      → ((raw x : String) → check raw ≡ ok (some x) → P x)
      → (out raws : List String) {res : List String} → All P out
      → clean check out raws ≡ ok res
      → All P res
  unfolding clean
  clean-All P sound out [] h e = subst (All P) (cc) h
  clean-All P sound out (raw ∷ raws) h e =
      let (checked, c, rest) = >>=-eq-ok (check raw) _ e in
      clean-All P sound (push_checked out checked) raws
        (push_checked-All P out checked h (λ x s. sound raw x (cc))) rest
