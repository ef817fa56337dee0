-- ===== src/Shell/Tests.antt =====
-- Runs of apps/server/src/shell-quote.ts, and the witnesses of its theorems.
use server_central.Prelude.{
  every, starts_with, ◌≡◌, refl, none, some, List, [], ◌∷◌, String, ok, Option,
}
use server_central.Shell.{shell_command_for, is_env_name}
use server_central.Shell.Reader.{read_command, Command}
use server_central.Shell.RoundTrip.{read_command-shell_command_for}
use server_central.Shell.RoundTrip.Parts.{command, given}

abbrev env : List (String × String)
env = ("K", "v w") ∷ []

abbrev argv : List String
argv = "it's" ∷ []

abbrev ran : Option Command
ran = some (command (some "/x") env ("a" ∷ argv))

read_run : read_command "cd '/x' && K='v w' 'a' 'it'\\''s'" ≡ ran
unfolding read_command is_env_name starts_with
read_run = refl

-- `cd '-'` goes to the previous directory.
read_dash : read_command "cd '-' && 'a'" ≡ none
unfolding read_command starts_with
read_dash = refl

-- Two blanks are one; an unquoted `;` is refused.
read_blanks :
    (read_command "a  b" ≡ some (command none [] ("a" ∷ "b" ∷ []))) × (read_command "a; b" ≡ none)
unfolding read_command
read_blanks = (refl, refl)

read_command-shell_command_for_example :
    (text : String) × (shell_command_for ("a" ∷ argv) (some "/x") env ≡ ok text)
    × (read_command text ≡ some (command (given (some "/x")) env ("a" ∷ argv)))
unfolding is_env_name every starts_with
read_command-shell_command_for_example =
    read_command-shell_command_for "a" argv (some "/x") env refl refl
