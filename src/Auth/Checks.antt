-- ===== src/Auth/Checks.antt =====
-- apps/server/src/auth.ts and apps/server/src/features/system-users/system-users.ts: the shapes of an
-- address and of an OS account's name, which the source tests by regular expressions.
use Prim.Native.String.{[], ◌∷◌}
use server_central.Prelude.{
  ℕ, ◌-◌, String, code, Bool, true, false, not, ◌&&◌, ◌||◌, Result, ensure, if◌then◌else◌, ◌==◌,
  leb, ltb, is_empty, is_space,
}
use server_central.Auth.{AuthError, invalid_system_user, invalid_email}

-- What follows a `@` in an address: `[^\s@]+\.[^\s@]+`, read up to the `.` and behind it.
is_domain_end : String → Bool
is_domain_end [] = true
is_domain_end (c ∷ s) =
    let rest = is_domain_end s in not (is_space (code c)) && not (code c == b'@') && rest

is_domain : (started : Bool) → String → Bool
unfolding is_domain_end
is_domain started [] = false
is_domain started (c ∷ s) =
    let rest = is_domain true s in
    not (is_space (code c))
    && not (code c == b'@')
    && ((started && (code c == b'.') && not (is_empty s) && is_domain_end s) || rest)

-- The shape `[^\s@]+@[^\s@]+\.[^\s@]+`.
is_email : (started : Bool) → String → Bool
unfolding is_domain
is_email started [] = false
is_email started (c ∷ s) =
    let rest = is_email true s in
    if code c == b'@' then started && is_domain false s else not (is_space (code c)) && rest

unfoldable pub assert_email_shape : String → Result AuthError (Unit {0})
unfolding is_email
assert_email_shape email = ensure (is_email false email) (invalid_email email)

-- `[a-z_][a-z0-9_-]{0,31}\$?`, at its first character and behind it; `room` is how many characters
-- may still come before the `$`.
is_name_tail : (room : ℕ) → String → Bool
is_name_tail room [] = true
is_name_tail room (c ∷ s) =
    let rest = is_name_tail (room - 1) s in
    ((code c == b'$') && is_empty s)
    || (ltb 0 room
        && ((leb b'a' (code c) && leb (code c) b'z')
            || (leb b'0' (code c) && leb (code c) b'9')
            || (code c == b'_')
            || (code c == b'-'))
        && rest)

unfoldable pub is_system_username : String → Bool
unfolding is_name_tail
is_system_username [] = false
is_system_username (c ∷ s) =
    ((leb b'a' (code c) && leb (code c) b'z') || (code c == b'_')) && is_name_tail 31 s

unfoldable pub assert_system_username : String → Result AuthError (Unit {0})
assert_system_username name = ensure (is_system_username name) (invalid_system_user name)
