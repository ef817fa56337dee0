-- ===== src/Prelude/Text.antt =====
-- JavaScript's text operations that the program uses. A text is a native `String`, a list of code
-- points by its own `[]` and `∷`; `length` counts UTF-16 units, as JavaScript does.
pub mod Prefix
pub mod Split
pub mod Sort
pub mod Words
pub mod Chars
use Prim.Native.Nat.{ℕ, ◌+◌}
use Prim.Native.Char.{Char, code}
use Prim.Native.String.{String, [], ◌∷◌}
use mathlib.Core.Bool.{Bool, true, false, ◌&&◌, ◌||◌}
use server_central.Prelude.Tests.{leb, ltb, ◌==◌, if◌then◌else◌}

-- `s.startsWith(p)`
unfoldable pub starts_with : String → String → Bool
starts_with s [] = true
starts_with [] (c ∷ p) = false
starts_with (a ∷ s) (c ∷ p) = (code a == code c) && starts_with s p

-- `s.slice(0, -1)`
unfoldable pub drop_last : String → String
drop_last [] = []
drop_last (a ∷ []) = []
drop_last (a ∷ b ∷ s) = a ∷ drop_last (b ∷ s)

-- The text is one character long, and that character is `.`; and the like for `.*` at the end.
abbrev is_text2 : ℕ → ℕ → String → Bool
is_text2 x y (a ∷ b ∷ []) = (code a == x) && (code b == y)
is_text2 x y _ = false

-- `s.endsWith(".*")`
unfoldable pub ends_with_wildcard : String → Bool
ends_with_wildcard [] = false
ends_with_wildcard (a ∷ s) = is_text2 b'.' b'*' (a ∷ s) || ends_with_wildcard s

-- The white space and line terminators that `trim` removes.
unfoldable pub is_space : ℕ → Bool
is_space c =
    (leb 9 c && leb c 13)
    || (c == 32)
    || (c == 160)
    || (c == 5760)
    || (leb 8192 c && leb c 8202)
    || (c == 8232)
    || (c == 8233)
    || (c == 8239)
    || (c == 8287)
    || (c == 12288)
    || (c == 65279)

unfoldable pub trim_start : String → String
trim_start [] = []
trim_start (c ∷ s) = let rest = trim_start s in if is_space (code c) then rest else c ∷ s

abbrev cons_unless_blank : Char → String → String
cons_unless_blank c [] = if is_space (code c) then [] else c ∷ []
cons_unless_blank c (d ∷ s) = c ∷ d ∷ s

unfoldable pub trim_end : String → String
trim_end [] = []
trim_end (c ∷ s) = cons_unless_blank c (trim_end s)

-- `s.trim()`
unfoldable pub trim : String → String
unfolding trim_start trim_end is_space
trim s = trim_end (trim_start s)

-- `s.length`: a code point above 0xFFFF is two units.
unfoldable pub length16 : String → ℕ
length16 [] = 0
length16 (c ∷ s) = (if ltb (code c) 0x10000 then 1 else 2) + length16 s

-- `s === ""`
abbrev pub is_empty : String → Bool
is_empty [] = true
is_empty (c ∷ s) = false

-- `[a-z]` and `[a-z0-9]` under the flag `i`, which takes the capital letters too.
unfoldable pub is_letter : ℕ → Bool
is_letter c = (leb b'a' c && leb c b'z') || (leb b'A' c && leb c b'Z')

unfoldable pub is_alnum : ℕ → Bool
unfolding is_letter
is_alnum c = is_letter c || (leb b'0' c && leb c b'9')
