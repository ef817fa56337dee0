-- ===== src/Shell/RoundTrip/Words.antt =====
-- What the reader makes of each part of a command of apps/server/src/shell-quote.ts: one word.
use Prim.Native.String.{[], ◌∷◌}
use text.Mathlib.TextEquality.{Char-path}
use server_central.Prelude.{
  ◌≡◌, refl, ◌∙◌, ap, String, Char, code, true, ◌||◌, List, Option, some, if◌then◌else◌, ◌==◌, inl,
  inr, Bool-cases, arith, is_letter, is_alnum,
}
use server_central.Prelude.Text.Split.{◌+++◌, all_chars, append_assoc}
use server_central.Shell.{escape, sh_quote, is_env_name}
use server_central.Shell.Reader.{
  Word, plain, quoted, opened, outside, within, put_piece, lex, text_of, split_assignment,
  is_ordinary,
}

-- What stands within quotes, as words.
unfoldable pub inside : String → Word
inside [] = List.[]
inside (c ∷ s) =
    if code c == b'\''
    then List.◌∷◌ (quoted c) (List.◌∷◌ opened (inside s))
    else List.◌∷◌ (quoted c) (inside s)

abbrev pub quote_word : String → Word
quote_word value = List.◌∷◌ opened (inside value)

unfoldable pub bare : String → Word
bare [] = List.[]
bare (c ∷ s) = List.◌∷◌ (plain c) (bare s)

-- `name='value'`
abbrev pub env_word : String → String → Word
env_word [] value = List.◌∷◌ (plain "=") (quote_word value)
env_word (c ∷ name) value = List.◌∷◌ (plain c) (env_word name value)

-- The pieces of a word put in front of the word that follows.
unfoldable pub puts : Word → Option (List Word) → Option (List Word)
puts List.[] rest = rest
puts (List.◌∷◌ p w) rest = put_piece p (puts w rest)

-- Whatever follows, the text is read as the pieces of this word.
abbrev pub Lexes : String → Word → Type 0
Lexes s w = (rest : String) → lex outside (s +++ rest) ≡ puts w (lex outside rest)

lex-inside :
    (v rest : String)
    → lex within (escape v +++ ("'" +++ rest)) ≡ puts (inside v) (lex outside rest)
unfolding lex escape inside puts
lex-inside [] rest = refl
lex-inside (c ∷ v) rest = elim (Bool-cases (code c == b'\'')) [
  | inl e ↦ rw (e, lex-inside v rest, Char-path c "'" (ground arith)) refl
  | inr e ↦ rw (e, e, lex-inside v rest) refl
]

pub lex_quote : (v : String) → Lexes (sh_quote v) (quote_word v)
unfolding sh_quote puts lex
lex_quote v rest = rw (append_assoc (escape v) "'" rest, lex-inside v rest) refl

lex_ordinary :
    (c : Char) (s : String)
    → is_ordinary (code c) ≡ true
    → lex outside (c ∷ s) ≡ put_piece (plain c) (lex outside s)
unfolding lex is_alnum is_letter
lex_ordinary c s h = ground arith

lex_name :
    (name value : String)
    → all_chars is_ordinary name ≡ true
    → Lexes (name +++ ("=" +++ sh_quote value)) (env_word name value)
unfolding all_chars puts is_alnum
lex_name [] value h rest =
    lex_ordinary "=" (sh_quote value +++ rest) refl
    ∙ ap (put_piece (plain "=")) (lex_quote value rest)
lex_name (c ∷ name) value h rest =
    lex_ordinary c ((name +++ ("=" +++ sh_quote value)) +++ rest) (ground arith)
    ∙ ap (put_piece (plain c)) (lex_name name value (ground arith) rest)

name_chars :
    (s : String)
    → all_chars (λ x. is_alnum x || x == b'_') s ≡ true
    → all_chars is_ordinary s ≡ true
unfolding all_chars
name_chars [] h = refl
name_chars (c ∷ s) h = ground (arith, name_chars s)

is_env_name-ordinary : (s : String) → is_env_name s ≡ true → all_chars is_ordinary s ≡ true
unfolding is_env_name all_chars is_alnum
is_env_name-ordinary [] h = refl
is_env_name-ordinary (c ∷ s) h = ground (arith, name_chars s)

pub lex_env :
    (name value : String)
    → is_env_name name ≡ true
    → Lexes (name +++ ("=" +++ sh_quote value)) (env_word name value)
lex_env name value h = lex_name name value (is_env_name-ordinary name h)

text_of-inside : (v : String) → text_of (inside v) ≡ some v
unfolding text_of inside
text_of-inside [] = refl
text_of-inside (c ∷ v) = elim (Bool-cases (code c == b'\'')) [
  | inl e ↦ rw (e, text_of-inside v) refl
  | inr e ↦ rw (e, text_of-inside v) refl
]

pub text_of-quote_word : (v : String) → text_of (quote_word v) ≡ some v
unfolding text_of
text_of-quote_word v = text_of-inside v

name_split :
    (name value : String)
    → all_chars (λ x. is_alnum x || x == b'_') name ≡ true
    → split_assignment (env_word name value) ≡ some (name, value)
unfolding split_assignment text_of all_chars is_alnum is_letter
name_split [] value h = rw (text_of-inside value) refl
name_split (c ∷ name) value h = elim (Bool-cases (code c == b'=')) [
  | inl e ↦ absurd (ground arith)
  | inr e ↦ rw (e, name_split name value (ground arith)) refl
]

-- The name and the value of an assignment are those written.
pub split_assignment-env_word :
    (name value : String)
    → is_env_name name ≡ true
    → split_assignment (env_word name value) ≡ some (name, value)
unfolding split_assignment is_env_name is_alnum is_letter
split_assignment-env_word [] value h = cc
split_assignment-env_word (c ∷ name) value h = elim (Bool-cases (code c == b'=')) [
  | inl e ↦ absurd (ground arith)
  | inr e ↦ rw (e, name_split name value (ground arith)) refl
]
