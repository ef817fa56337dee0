-- ===== src/Shell/Reader.antt =====
-- An independent description of the part of the POSIX shell language (Shell Command Language, 2.2 and
-- 2.9.1) that the commands of apps/server/src/shell-quote.ts use: single quotes, backslashes, blanks,
-- assignments in front of a command, and `cd DIR &&`. The reader refuses every other unquoted character,
-- and a directory that begins with `-`, which `cd` reads as an option or as the previous directory;
-- `CDPATH` is taken not to be set.
use Prim.Native.String.{[], ◌∷◌}
use server_central.Prelude.{
  ℕ, Char, String, code, Bool, true, false, ◌&&◌, ◌||◌, List, Option, none, some, if◌then◌else◌,
  ◌==◌, ◌===◌, is_alnum, starts_with,
}
use server_central.Shell.{is_env_name}

-- A piece of a word: a character as it stands, a quoted one, an opened quote (a word may be the
-- empty text between two quotes), or the operator `&&`.
pub data Piece : Type 0 where
  plain quoted : Char → Piece
  opened and_then : Piece

abbrev pub Word : Type 0
Word = List Piece

-- Outside quotes, within them, after a backslash, after one `&`.
pub data Mode : Type 0 where
  outside within escaped ampersand : Mode

abbrev pub put_piece : Piece → Option (List Word) → Option (List Word)
put_piece p none = none
put_piece p (some List.[]) = none
put_piece p (some (List.◌∷◌ w ws)) = some (List.◌∷◌ (List.◌∷◌ p w) ws)

abbrev pub next_word : Option (List Word) → Option (List Word)
next_word none = none
next_word (some ws) = some (List.◌∷◌ List.[] ws)

-- The characters that stand for themselves outside quotes.
abbrev pub is_ordinary : ℕ → Bool
is_ordinary c = is_alnum c || c == b'_' || c == b'='

unfoldable pub lex : Mode → String → Option (List Word)
unfolding is_alnum
lex outside [] = some (List.◌∷◌ List.[] List.[])
lex within [] = none
lex escaped [] = none
lex ampersand [] = none
lex outside (c ∷ s) =
    let here = lex outside s in
    if code c == b' '
    then next_word here
    else if code c == b'\''
    then put_piece opened (lex within s)
    else if code c == b'\\'
    then lex escaped s
    else if code c == b'&'
    then lex ampersand s
    else if is_ordinary (code c)
    then put_piece (plain c) here
    else none
lex within (c ∷ s) = if code c == b'\'' then lex outside s else put_piece (quoted c) (lex within s)
lex escaped (c ∷ s) = if code c == 10 then none else put_piece (quoted c) (lex outside s)
lex ampersand (c ∷ s) = if code c == b'&' then put_piece and_then (lex outside s) else none

-- Blanks between words may be several.
unfoldable pub drop_blank : List Word → List Word
drop_blank List.[] = List.[]
drop_blank (List.◌∷◌ List.[] ws) = drop_blank ws
drop_blank (List.◌∷◌ (List.◌∷◌ p w) ws) = List.◌∷◌ (List.◌∷◌ p w) (drop_blank ws)

abbrev cons_char : Char → Option String → Option String
cons_char c none = none
cons_char c (some s) = some (c ∷ s)

-- The text a word stands for; an operator is not a word.
unfoldable pub text_of : Word → Option String
text_of List.[] = some []
text_of (List.◌∷◌ (plain c) w) = cons_char c (text_of w)
text_of (List.◌∷◌ (quoted c) w) = cons_char c (text_of w)
text_of (List.◌∷◌ opened w) = text_of w
text_of (List.◌∷◌ and_then w) = none

abbrev with_value : Option String → Option (String × String)
with_value none = none
with_value (some value) = some ([], value)

abbrev cons_name : Char → Option (String × String) → Option (String × String)
cons_name c none = none
cons_name c (some (name, value)) = some (c ∷ name, value)

-- The word up to its first unquoted `=`, all of it unquoted, and what follows.
unfoldable pub split_assignment : Word → Option (String × String)
unfolding text_of
split_assignment List.[] = none
split_assignment (List.◌∷◌ (plain c) w) =
    if code c == b'=' then with_value (text_of w) else cons_name c (split_assignment w)
split_assignment (List.◌∷◌ (quoted c) w) = none
split_assignment (List.◌∷◌ opened w) = none
split_assignment (List.◌∷◌ and_then w) = none

-- What the shell runs: the directory it changes to before, the assignments for the command, its words.
pub record Command : Type 0 where
  pub cwd : Option String
  pub env : List (String × String)
  pub argv : List String

abbrev pub cons_text : Option String → Option (List String) → Option (List String)
cons_text (some t) (some ts) = some (List.◌∷◌ t ts)
cons_text _ _ = none

unfoldable pub texts_of : List Word → Option (List String)
unfolding text_of
texts_of List.[] = some List.[]
texts_of (List.◌∷◌ w ws) = cons_text (text_of w) (texts_of ws)

abbrev pub argv_only : Option (List String) → Option Command
argv_only none = none
argv_only (some ts) = some (record { cwd = none; env = List.[]; argv = ts })

abbrev pub add_assignment : String × String → Option Command → Option Command
add_assignment a none = none
add_assignment a (some c) = some (record c { env = List.◌∷◌ a c.env })

-- The first word is an assignment, or the words from it on are the command's.
abbrev pub first_word : Option (String × String) → Option Command → Option Command → Option Command
first_word none rest from_here = from_here
first_word (some (name, value)) rest from_here =
    if is_env_name name then add_assignment (name, value) rest else from_here

-- A word is an assignment as long as no other word came before.
unfoldable pub simple_command : List Word → Option Command
unfolding texts_of split_assignment
simple_command List.[] = none
simple_command (List.◌∷◌ w ws) =
    first_word (split_assignment w) (simple_command ws) (argv_only (texts_of (List.◌∷◌ w ws)))

abbrev pub is_operator : Word → Bool
is_operator (List.◌∷◌ and_then List.[]) = true
is_operator _ = false

abbrev pub says_cd : Option String → Bool
says_cd none = false
says_cd (some t) = t === "cd"

abbrev pub into : Option String → Option Command → Option Command
into (some dir) (some c) = if starts_with dir "-" then none else some (record c { cwd = some dir })
into _ _ = none

-- `cd DIR && COMMAND`, or a command.
unfoldable pub and_list : List Word → Option Command
unfolding simple_command
and_list (List.◌∷◌ a (List.◌∷◌ b (List.◌∷◌ c ws))) =
    if says_cd (text_of a) && is_operator c
    then into (text_of b) (simple_command ws)
    else simple_command (List.◌∷◌ a (List.◌∷◌ b (List.◌∷◌ c ws)))
and_list ws = simple_command ws

abbrev pub read_words : Option (List Word) → Option Command
read_words none = none
read_words (some ws) = and_list (drop_blank ws)

unfoldable pub read_command : String → Option Command
unfolding lex drop_blank and_list
read_command text = read_words (lex outside text)
