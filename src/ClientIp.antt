-- ===== src/ClientIp.antt =====
-- apps/server/src/client-ip.ts: addresses read into bytes and printed. A `Uint8Array` is the list of
-- its bytes. `parseIp` calls itself only on digits and dots, which it reads as `parse_ipv4` does.
mod Tests
pub mod Trusted
pub mod RoundTrip
use Prim.Native.String.{[], ◌∷◌}
use server_central.Prelude.{
  ℕ, zero, suc, ◌+◌, ◌-◌, ◌*◌, ◌/◌, ◌%◌, Char, String, code, Bool, true, false, not, ◌&&◌, ◌||◌,
  List, Option, none, some, if◌then◌else◌, ◌==◌, leb, ltb, length, trim, starts_with, is_empty, map,
  ◌++◌,
}
use server_central.Prelude.Text.Split.{split, join, all_chars, has_code, cons_head, ◌+++◌}

abbrev pub Bytes : Type 0
Bytes = List ℕ

abbrev pub is_digit : ℕ → Bool
is_digit c = leb b'0' c && leb c b'9'

-- `[0-9a-f]` under the flag `i`
abbrev pub is_hex : ℕ → Bool
is_hex c = is_digit c || (leb b'a' c && leb c b'f') || (leb b'A' c && leb c b'F')

unfoldable pub count : String → ℕ
count [] = 0
count (c ∷ s) = suc (count s)

unfoldable pub decimal_value : ℕ → String → ℕ
decimal_value n [] = n
decimal_value n (c ∷ s) = decimal_value (n * 10 + (code c - b'0')) s

abbrev pub hex_digit : ℕ → ℕ
hex_digit c = if leb c b'9' then c - b'0' else if leb b'a' c then c - b'a' + 10 else c - b'A' + 10

-- `Number.parseInt(group, 16)`
unfoldable pub hex_value : ℕ → String → ℕ
hex_value n [] = n
hex_value n (c ∷ s) = hex_value (n * 16 + hex_digit (code c)) s

-- `/^\d{1,3}$/`, and a value up to 255
unfoldable pub parse_octet : String → Option ℕ
unfolding all_chars count decimal_value
parse_octet s =
    if all_chars is_digit s && leb 1 (count s) && leb (count s) 3
    then if ltb 255 (decimal_value 0 s) then none else some (decimal_value 0 s)
    else none

abbrev pub cons_some : Option ℕ → Option Bytes → Option Bytes
cons_some (some b) (some bs) = some (List.◌∷◌ b bs)
cons_some _ _ = none

unfoldable pub parse_octets : List String → Option Bytes
unfolding parse_octet
parse_octets List.[] = some List.[]
parse_octets (List.◌∷◌ p ps) = cons_some (parse_octet p) (parse_octets ps)

unfoldable pub parse_ipv4 : String → Option Bytes
unfolding split parse_octets
parse_ipv4 value = if length (split b'.' value) == 4 then parse_octets (split b'.' value) else none

-- `value.split("::")`; the flag says that a colon was read and not yet placed.
unfoldable pub split_double : (colon : Bool) → String → List String
split_double false [] = List.◌∷◌ [] List.[]
split_double true [] = List.◌∷◌ ":" List.[]
split_double false (c ∷ s) =
    let after = split_double true s in
    let on = split_double false s in if code c == b':' then after else cons_head c on
split_double true (c ∷ s) =
    let on = split_double false s in
    if code c == b':' then List.◌∷◌ [] on else cons_head ":" (cons_head c on)

-- `half ? half.split(":") : []`
abbrev pub groups_of : String → List String
groups_of [] = List.[]
groups_of (c ∷ s) = split b':' (c ∷ s)

-- `/^[0-9a-f]{1,4}$/i`, and its value
unfoldable pub parse_group : String → Option ℕ
unfolding all_chars count hex_value
parse_group s =
    if all_chars is_hex s && leb 1 (count s) && leb (count s) 4 then some (hex_value 0 s) else none

unfoldable pub parse_groups : List String → Option (List ℕ)
unfolding parse_group
parse_groups List.[] = some List.[]
parse_groups (List.◌∷◌ g gs) = cons_some (parse_group g) (parse_groups gs)

unfoldable pub zeros : ℕ → List ℕ
zeros zero = List.[]
zeros (suc n) = List.◌∷◌ 0 (zeros n)

-- The eight groups of an address without `::`, and of one with it.
abbrev pub exactly_eight : Option (List ℕ) → Option (List ℕ)
exactly_eight none = none
exactly_eight (some gs) = if length gs == 8 then some gs else none

unfoldable pub fill : Option (List ℕ) → Option (List ℕ) → Option (List ℕ)
unfolding zeros
fill (some hs) (some ts) =
    if ltb (length hs + length ts) 8
    then some (hs ++ (zeros (8 - (length hs + length ts)) ++ ts))
    else none
fill _ _ = none

abbrev pub groups_of_halves : List String → Option (List ℕ)
groups_of_halves (List.◌∷◌ h List.[]) = exactly_eight (parse_groups (groups_of h))
groups_of_halves (List.◌∷◌ h (List.◌∷◌ t List.[])) =
    fill (parse_groups (groups_of h)) (parse_groups (groups_of t))
groups_of_halves _ = none

unfoldable pub group_bytes : List ℕ → Bytes
group_bytes List.[] = List.[]
group_bytes (List.◌∷◌ g gs) = List.◌∷◌ (g / 256) (List.◌∷◌ (g % 256) (group_bytes gs))

abbrev pub some_bytes : Option (List ℕ) → Option Bytes
some_bytes none = none
some_bytes (some gs) = some (group_bytes gs)

unfoldable pub parse_ipv6 : String → Option Bytes
unfolding split_double parse_groups fill group_bytes split
parse_ipv6 value = some_bytes (groups_of_halves (split_double false value))

-- `/^::ffff:(\d+\.\d+\.\d+\.\d+)$/i`: what the group captures.
abbrev is_f : ℕ → Bool
is_f x = (x == b'f') || (x == b'F')

abbrev after_prefix : String → Option String
after_prefix (a ∷ b ∷ c ∷ d ∷ e ∷ f ∷ g ∷ rest) =
    if (code a == b':')
      && (code b == b':')
      && is_f (code c)
      && is_f (code d)
      && is_f (code e)
      && is_f (code f)
      && (code g == b':')
    then some rest
    else none
after_prefix _ = none

unfoldable pub all_digits : List String → Bool
unfolding all_chars
all_digits List.[] = true
all_digits (List.◌∷◌ p ps) = not (is_empty p) && all_chars is_digit p && all_digits ps

abbrev dotted : Option String → Option String
dotted none = none
dotted (some rest) =
    if (length (split b'.' rest) == 4) && all_digits (split b'.' rest) then some rest else none

unfoldable pub mapped : String → Option String
unfolding all_digits split
mapped value = dotted (after_prefix value)

-- `.replace(/^a|b$/g, "")`, for the characters `a` and `b`.
abbrev pub drop_open : ℕ → String → String
drop_open x [] = []
drop_open x (c ∷ s) = if code c == x then s else c ∷ s

abbrev close_last : ℕ → Char → String → String → String
close_last x c [] rest = if code c == x then [] else c ∷ []
close_last x c (d ∷ s) rest = c ∷ rest

unfoldable pub drop_close : ℕ → String → String
drop_close x [] = []
drop_close x (c ∷ s) = close_last x c s (drop_close x s)

abbrev mapped_or_ipv6 : Option String → String → Option Bytes
mapped_or_ipv6 none value = parse_ipv6 value
mapped_or_ipv6 (some quad) value = parse_ipv4 quad

-- The address without blanks and brackets.
abbrev pub parse_bare : String → Option Bytes
parse_bare value =
    if is_empty value
    then none
    else if has_code b':' value
    then mapped_or_ipv6 (mapped value) value
    else parse_ipv4 value

unfoldable pub parse_ip : String → Option Bytes
unfolding drop_close mapped parse_ipv4 parse_ipv6 has_code
parse_ip text = parse_bare (drop_close b']' (drop_open b'[' (trim text)))

abbrev digits : String
digits = "0123456789abcdef"

unfoldable pub digit_at : String → ℕ → String
digit_at [] n = []
digit_at (c ∷ s) zero = c ∷ []
digit_at (c ∷ s) (suc n) = digit_at s n

-- The digit of a number below sixteen.
abbrev pub digit : ℕ → String
digit n = digit_at digits n

-- A byte as `join` prints it.
unfoldable pub print_byte : ℕ → String
unfolding digit_at
print_byte n =
    if ltb n 10
    then digit n
    else if ltb n 100
    then digit (n / 10) +++ digit (n % 10)
    else digit (n / 100) +++ (digit (n / 10 % 10) +++ digit (n % 10))

-- `g.toString(16)` of a group of 16 bits
unfoldable pub print_group : ℕ → String
unfolding digit_at
print_group n =
    if ltb n 16
    then digit n
    else if ltb n 256
    then digit (n / 16) +++ digit (n % 16)
    else if ltb n 4096
    then digit (n / 256) +++ (digit (n / 16 % 16) +++ digit (n % 16))
    else digit (n / 4096) +++ (digit (n / 256 % 16) +++ (digit (n / 16 % 16) +++ digit (n % 16)))

unfoldable pub groups_of_bytes : Bytes → List ℕ
groups_of_bytes (List.◌∷◌ high (List.◌∷◌ low bs)) = List.◌∷◌ (high * 256 + low) (groups_of_bytes bs)
groups_of_bytes _ = List.[]

-- How many zeros the list starts with.
unfoldable pub zero_run : List ℕ → ℕ
zero_run List.[] = 0
zero_run (List.◌∷◌ g gs) = let n = zero_run gs in if g == 0 then suc n else 0

pub record Run : Type 0 where
  pub start : ℕ
  pub size : ℕ

-- The search for the longest run from index `i` on. A run is looked at from its first zero: the later
-- ones of it, which the source skips by `i = j - 1`, are shorter.
unfoldable pub longest_run : ℕ → Run → List ℕ → Run
unfolding zero_run
longest_run i best List.[] = best
longest_run i best (List.◌∷◌ g gs) =
    let n = zero_run (List.◌∷◌ g gs) in
    longest_run (i + 1) (if ltb best.size n then record { start = i; size = n } else best) gs

unfoldable pub take : ℕ → List ℕ → List ℕ
take zero gs = List.[]
take (suc n) List.[] = List.[]
take (suc n) (List.◌∷◌ g gs) = List.◌∷◌ g (take n gs)

unfoldable pub drop : ℕ → List ℕ → List ℕ
drop zero gs = gs
drop (suc n) List.[] = List.[]
drop (suc n) (List.◌∷◌ g gs) = drop n gs

abbrev pub print_groups : List ℕ → String
print_groups gs = join ":" (map print_group gs)

abbrev pub print_with : Run → List ℕ → String
print_with run gs =
    if ltb run.size 2
    then print_groups gs
    else print_groups (take run.start gs)
      +++ ("::" +++ print_groups (drop (run.start + run.size) gs))

unfoldable pub format : Bytes → String
unfolding print_byte print_group longest_run groups_of_bytes take drop join
format bytes =
    if length bytes == 4
    then join "." (map print_byte bytes)
    else print_with (longest_run 0 (record { start = 0; size = 0 }) (groups_of_bytes bytes))
        (groups_of_bytes bytes)
