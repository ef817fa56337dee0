-- ===== src/Shell/RoundTrip.antt =====
-- A shell reads back what apps/server/src/shell-quote.ts writes.
pub mod Words
pub mod Parts
use Prim.Native.String.{[], ◌∷◌}
use server_central.Prelude.{
  ◌≡◌, refl, sym, subst, ◌∙◌, ap, String, Bool, true, false, List, Option, none, some,
  if◌then◌else◌, inl, inr, Bool-cases, and-eq-true, arith, ◌++◌, map, every, is_empty, starts_with,
  ok, ◌>>=◌, All, All-append,
}
use server_central.Prelude.Text.Split.{◌+++◌, join, append_assoc, append-nil}
use server_central.Shell.{
  sh_quote, is_env_name, assignments, in_directory, shell_command_for, ShellError,
}
use server_central.Shell.Reader.{
  Word, and_then, outside, lex, put_piece, next_word, drop_blank, simple_command, and_list,
  read_command, Command, read_words, texts_of, is_operator, text_of, Piece, says_cd, first_word,
  split_assignment, plain, quoted, opened, into, add_assignment, argv_only,
}
use server_central.Shell.RoundTrip.Words.{
  quote_word, bare, env_word, puts, Lexes, lex_quote, lex_env, text_of-quote_word,
  split_assignment-env_word,
}
use server_central.Shell.RoundTrip.Parts.{
  Part, quoted_part, puts-nil, texts, words, drop_blank-words, and_list-words, env_parts, given,
  command, simple_command-parts, assignments-parts, texts-append, texts-quoted, lex-parts,
}

-- `cd` would not read the text as the name of a directory.
abbrev pub is_option : Option String → Bool
is_option none = false
is_option (some dir) = starts_with dir "-"

module _ (env : List (String × String)) (valid : every (λ e. is_env_name e.0) env ≡ true)
    (a : String) (argv : List String) where
  all_parts : List Part
  all_parts = env_parts env valid ++ map quoted_part (List.◌∷◌ a argv)

  written : String
  written = join " " (texts all_parts)

  lex-written : lex outside written ≡ some (words all_parts)
  unfolding all_parts written
  lex-written = lex-parts (env_parts env valid) (quoted_part a) (map quoted_part argv)

  read_written : read_command written ≡ some (command none env (List.◌∷◌ a argv))
  unfolding all_parts read_command
  read_written =
      ap read_words lex-written
      ∙ ap and_list (drop_blank-words all_parts)
      ∙ and_list-words all_parts
      ∙ simple_command-parts env valid a argv

  lex-cd :
      (dir : String)
      → lex outside ("cd " +++ (sh_quote dir +++ (" && " +++ written)))
        ≡ some (
            List.◌∷◌
              (bare "cd")
              (List.◌∷◌ (quote_word dir) (List.◌∷◌ (List.◌∷◌ and_then List.[]) (words all_parts))))
  unfolding lex bare puts
  lex-cd dir =
      ap (λ o. put_piece (plain "c") (put_piece (plain "d") (next_word o)))
        (lex_quote dir (" && " +++ written)
          ∙ ap (λ o. puts (quote_word dir) (next_word (put_piece and_then (next_word o))))
              lex-written
          ∙ puts-nil (quote_word dir) _)

  read_cd :
      (dir : String)
      → starts_with dir "-" ≡ false
      → read_command ("cd " +++ (sh_quote dir +++ (" && " +++ written)))
        ≡ some (command (some dir) env (List.◌∷◌ a argv))
  unfolding all_parts read_command bare and_list text_of
  read_cd dir named =
      rw
        (
          lex-cd dir,
          drop_blank-words all_parts,
          text_of-quote_word dir,
          simple_command-parts env valid a argv,
          named,
        )
        refl

  shell_command_for-written :
      (cwd : Option String)
      → shell_command_for (List.◌∷◌ a argv) cwd env ≡ ok (in_directory cwd written)
  unfolding all_parts written shell_command_for
  shell_command_for-written cwd =
      rw
        (
          assignments-parts env valid,
          texts-append (env_parts env valid) (map quoted_part (List.◌∷◌ a argv)),
          texts-quoted argv,
        )
        refl

  read_directory :
      (cwd : Option String)
      → is_option cwd ≡ false
      → read_command (in_directory cwd written) ≡ some (command (given cwd) env (List.◌∷◌ a argv))
  unfolding in_directory
  read_directory none named = read_written
  read_directory (some dir) named = elim (Bool-cases (is_empty dir)) [
    | inl e ↦ rw e read_written
    | inr e ↦ rw e (read_cd dir named)
  ]

-- With valid names in the environment, an argument vector that is not empty, and a directory, if one
-- is given, that does not begin with `-`, a command is written, and a shell that reads it runs that
-- vector, after changing to the directory when one is given, with those assignments and no other.
pub read_command-shell_command_for :
    (a : String) (argv : List String) (cwd : Option String) (env : List (String × String))
    → every (λ e. is_env_name e.0) env ≡ true
    → is_option cwd ≡ false
    → (text : String) × (shell_command_for (List.◌∷◌ a argv) cwd env ≡ ok text)
      × (read_command text ≡ some (command (given cwd) env (List.◌∷◌ a argv)))
read_command-shell_command_for a argv cwd env valid named = (
  in_directory cwd (written env valid a argv),
  shell_command_for-written env valid a argv cwd,
  read_directory env valid a argv cwd named,
)
