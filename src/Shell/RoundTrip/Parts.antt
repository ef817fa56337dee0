-- ===== src/Shell/RoundTrip/Parts.antt =====
-- The parts of a command of apps/server/src/shell-quote.ts, read one after another.
use Prim.Native.String.{[], ◌∷◌}
use server_central.Prelude.{
  ◌≡◌, refl, subst, ◌∙◌, ap, String, Bool, true, false, List, Option, none, some, if◌then◌else◌,
  inl, inr, Bool-cases, and-eq-true, ◌++◌, map, every, is_empty, ok,
}
use server_central.Prelude.Text.Split.{◌+++◌, join, append-nil}
use server_central.Shell.{sh_quote, is_env_name, assignments}
use server_central.Shell.Reader.{
  Word, and_then, outside, lex, next_word, drop_blank, simple_command, and_list, Command, texts_of,
  is_operator, text_of, says_cd, first_word, split_assignment, plain, quoted, opened,
  add_assignment, argv_only,
}
use server_central.Shell.RoundTrip.Words.{
  quote_word, env_word, puts, Lexes, lex_quote, lex_env, text_of-quote_word,
  split_assignment-env_word,
}

-- A part of the command with the word it is read as; the word is neither blank nor an operator.
abbrev is_solid : Word → Bool
is_solid List.[] = false
is_solid (List.◌∷◌ and_then w) = false
is_solid _ = true

pub record Part : Type 0 where
  pub text : String
  pub word : Word
  pub solid : is_solid word ≡ true
  pub lexes : Lexes text word

abbrev pub quoted_part : String → Part
quoted_part v = record { text = sh_quote v; word = quote_word v; solid = refl; lexes = lex_quote v }

env_word_solid : (name value : String) → is_solid (env_word name value) ≡ true
env_word_solid [] value = refl
env_word_solid (c ∷ name) value = refl

pub puts-nil :
    (w : Word) (ws : List Word) → puts w (some (List.◌∷◌ List.[] ws)) ≡ some (List.◌∷◌ w ws)
unfolding puts
puts-nil List.[] ws = refl
puts-nil (List.◌∷◌ p w) ws = rw (puts-nil w ws) refl

abbrev pub texts : List Part → List String
texts ps = map (λ p. p.text) ps

abbrev pub words : List Part → List Word
words ps = map (λ p. p.word) ps

lex-join :
    (p : Part) (ps : List Part)
    → lex outside (join " " (texts (List.◌∷◌ p ps))) ≡ some (words (List.◌∷◌ p ps))
unfolding join lex
lex-join p List.[] =
    subst (λ t. lex outside t ≡ some (List.◌∷◌ p.word List.[])) (append-nil p.text)
      (p.lexes [] ∙ puts-nil p.word List.[])
lex-join p (List.◌∷◌ q ps) =
    p.lexes (" " +++ join " " (texts (List.◌∷◌ q ps)))
    ∙ ap (λ o. puts p.word (next_word o)) (lex-join q ps)
    ∙ puts-nil p.word (words (List.◌∷◌ q ps))

drop_blank_cons :
    (w : Word) (ws : List Word)
    → is_solid w ≡ true
    → drop_blank (List.◌∷◌ w ws) ≡ List.◌∷◌ w (drop_blank ws)
unfolding drop_blank
drop_blank_cons List.[] ws h = cc
drop_blank_cons (List.◌∷◌ p w) ws h = refl

pub drop_blank-words : (ps : List Part) → drop_blank (words ps) ≡ words ps
unfolding drop_blank
drop_blank-words List.[] = refl
drop_blank-words (List.◌∷◌ p ps) =
    drop_blank_cons p.word (words ps) p.solid ∙ ap (λ r. List.◌∷◌ p.word r) (drop_blank-words ps)

solid_no_operator : (w : Word) → is_solid w ≡ true → is_operator w ≡ false
solid_no_operator List.[] h = refl
solid_no_operator (List.◌∷◌ and_then List.[]) h = cc
solid_no_operator (List.◌∷◌ and_then (List.◌∷◌ p w)) h = refl
solid_no_operator (List.◌∷◌ (plain c) w) h = refl
solid_no_operator (List.◌∷◌ (quoted c) w) h = refl
solid_no_operator (List.◌∷◌ opened w) h = refl

pub and_list-words : (ps : List Part) → and_list (words ps) ≡ simple_command (words ps)
unfolding and_list
and_list-words List.[] = refl
and_list-words (List.◌∷◌ p List.[]) = refl
and_list-words (List.◌∷◌ p (List.◌∷◌ q List.[])) = refl
and_list-words (List.◌∷◌ p (List.◌∷◌ q (List.◌∷◌ r ps))) =
    elim (Bool-cases (says_cd (text_of p.word))) [
      | inl cd ↦ rw (cd, solid_no_operator r.word r.solid) refl
      | inr other ↦ rw other refl
    ]

texts_of-quoted : (vs : List String) → texts_of (words (map quoted_part vs)) ≡ some vs
unfolding texts_of
texts_of-quoted List.[] = refl
texts_of-quoted (List.◌∷◌ v vs) = rw (text_of-quote_word v, texts_of-quoted vs) refl

-- The parts of a command: its assignments, all of them valid, and its words.
pub env_parts : (env : List (String × String)) → every (λ e. is_env_name e.0) env ≡ true → List Part
unfolding every
env_parts List.[] h = List.[]
env_parts (List.◌∷◌ (name, value) env) h =
    List.◌∷◌
      (record {
        text = name +++ ("=" +++ sh_quote value);
        word = env_word name value;
        solid = env_word_solid name value;
        lexes = lex_env name value (and-eq-true h).0;
      })
      (env_parts env (and-eq-true h).1)

-- `opts?.cwd`, of which the empty text counts as none.
abbrev pub given : Option String → Option String
given none = none
given (some dir) = if is_empty dir then none else some dir

abbrev pub command : Option String → List (String × String) → List String → Command
command cwd env argv = record { cwd = cwd; env = env; argv = argv }

simple_command_cons :
    (w : Word) (ws : List Word) (name value : String) (c : Command)
    → split_assignment w ≡ some (name, value)
    → is_env_name name ≡ true
    → simple_command ws ≡ some c
    → simple_command (List.◌∷◌ w ws) ≡ some (record c { env = List.◌∷◌ (name, value) c.env })
unfolding simple_command
simple_command_cons w ws name value c s v e =
    ap (λ o. first_word o (simple_command ws) (argv_only (texts_of (List.◌∷◌ w ws)))) s
    ∙ ap
        (λ b.
          if b
          then add_assignment (name, value) (simple_command ws)
          else argv_only (texts_of (List.◌∷◌ w ws)))
        v
    ∙ ap (add_assignment (name, value)) e

pub simple_command-parts :
    (env : List (String × String)) (h : every (λ e. is_env_name e.0) env ≡ true) (a : String)
    (argv : List String)
    → simple_command (words (env_parts env h ++ map quoted_part (List.◌∷◌ a argv)))
      ≡ some (command none env (List.◌∷◌ a argv))
unfolding env_parts every simple_command split_assignment
simple_command-parts List.[] h a argv = ap argv_only (texts_of-quoted (List.◌∷◌ a argv))
simple_command-parts (List.◌∷◌ (name, value) env) h a argv =
    let (valid, more) = and-eq-true h in
    simple_command_cons (env_word name value)
      (words (env_parts env more ++ map quoted_part (List.◌∷◌ a argv))) name value
      (command none env (List.◌∷◌ a argv)) (split_assignment-env_word name value valid) valid
      (simple_command-parts env more a argv)

assignments_cons :
    (name value : String) (env : List (String × String)) (parts : List String)
    → is_env_name name ≡ true
    → assignments env ≡ ok parts
    → assignments (List.◌∷◌ (name, value) env)
      ≡ ok (List.◌∷◌ (name +++ ("=" +++ sh_quote value)) parts)
unfolding assignments
assignments_cons name value env parts v e = rw (v, e) refl

pub assignments-parts :
    (env : List (String × String)) (h : every (λ e. is_env_name e.0) env ≡ true)
    → assignments env ≡ ok (texts (env_parts env h))
unfolding assignments every env_parts
assignments-parts List.[] h = refl
assignments-parts (List.◌∷◌ (name, value) env) h =
    let (valid, more) = and-eq-true h in
    assignments_cons name value env (texts (env_parts env more)) valid (assignments-parts env more)

pub texts-append : (ps qs : List Part) → texts (ps ++ qs) ≡ texts ps ++ texts qs
texts-append List.[] qs = refl
texts-append (List.◌∷◌ p ps) qs = ap (λ r. List.◌∷◌ p.text r) (texts-append ps qs)

pub texts-quoted : (vs : List String) → texts (map quoted_part vs) ≡ map sh_quote vs
texts-quoted List.[] = refl
texts-quoted (List.◌∷◌ v vs) = ap (λ r. List.◌∷◌ (sh_quote v) r) (texts-quoted vs)

pub lex-parts :
    (ps : List Part) (q : Part) (qs : List Part)
    → lex outside (join " " (texts (ps ++ List.◌∷◌ q qs))) ≡ some (words (ps ++ List.◌∷◌ q qs))
lex-parts List.[] q qs = lex-join q qs
lex-parts (List.◌∷◌ p ps) q qs = lex-join p (ps ++ List.◌∷◌ q qs)
