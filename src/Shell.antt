-- ===== src/Shell.antt =====
-- apps/server/src/shell-quote.ts: an argument vector written as a POSIX shell command. `Object.entries`
-- of the environment is the list `env`, in its order; a `cwd` that is not given is none.
pub mod Reader
pub mod RoundTrip
mod Tests
use Prim.Native.String.{[], ◌∷◌}
use server_central.Prelude.{
  String, code, Bool, true, false, ◌&&◌, ◌||◌, List, Option, none, some, if◌then◌else◌, ◌==◌,
  is_letter, is_alnum, is_empty, Result, err, ok, ◌>>=◌, ◌++◌, map,
}
use server_central.Prelude.Text.Split.{◌+++◌, join, all_chars}

pub data ShellError : Type 0 where
  empty_argv : ShellError
  invalid_name : String → ShellError

-- `value.replace(/'/g, "'\\''")`
unfoldable pub escape : String → String
escape [] = []
escape (c ∷ s) = if code c == b'\'' then "'\\''" +++ escape s else c ∷ escape s

unfoldable pub sh_quote : String → String
sh_quote value = "'" +++ (escape value +++ "'")

-- `/^[A-Za-z_][A-Za-z0-9_]*$/`
unfoldable pub is_env_name : String → Bool
unfolding is_letter is_alnum all_chars
is_env_name [] = false
is_env_name (c ∷ s) =
    (is_letter (code c) || code c == b'_') && all_chars (λ x. is_alnum x || x == b'_') s

-- The loop over the environment, with what it has pushed.
unfoldable pub assignments : List (String × String) → Result ShellError (List String)
unfolding is_env_name
assignments List.[] = ok List.[]
assignments (List.◌∷◌ (name, value) env) =
    if is_env_name name
    then (assignments env >>= λ parts. ok (List.◌∷◌ (name +++ ("=" +++ sh_quote value)) parts))
    else err (invalid_name name)

-- `opts?.cwd ? ... : command`
unfoldable pub in_directory : Option String → String → String
in_directory none command = command
in_directory (some cwd) command =
    if is_empty cwd then command else "cd " +++ (sh_quote cwd +++ (" && " +++ command))

unfoldable pub shell_command_for :
    List String → Option String → List (String × String) → Result ShellError String
unfolding assignments in_directory
shell_command_for List.[] cwd env = err empty_argv
shell_command_for (List.◌∷◌ a argv) cwd env = assignments env >>= λ parts.
    ok (in_directory cwd (join " " (parts ++ map sh_quote (List.◌∷◌ a argv))))
