-- ===== src/ClientIp/RoundTrip/Plain.antt =====
-- What parseIp of apps/server/src/client-ip.ts does with the text of a printed address.
use Prim.Native.String.{[], ◌∷◌}
use server_central.Prelude.{
  ℕ, ◌<◌, ◌≡◌, refl, ap, String, code, Bool, true, false, not, ◌||◌, List, none, some, ◌==◌, arith,
  and-eq-true, All, map, is_empty, is_space, if◌then◌else◌,
}
use server_central.Prelude.Text.Split.{◌+++◌, join, all_chars, has_code}
use server_central.Prelude.Text.Chars.{all_chars_mono, trim_plain, split_plain, split-join}
use server_central.ClientIp.{
  Bytes, parse_ip, parse_bare, parse_ipv4, parse_ipv6, parse_octets, print_byte, is_digit, is_hex,
  drop_open, drop_close, mapped, dotted,
}
use server_central.ClientIp.RoundTrip.Numbers.{parse_octet-print_byte, print_byte-IsPrinted}

-- The characters of a printed address.
abbrev pub is_address_char : ℕ → Bool
is_address_char x = is_hex x || x == b'.' || x == b':'

drop_open_plain : (x : ℕ) (s : String) → all_chars (λ y. not (y == x)) s ≡ true → drop_open x s ≡ s
unfolding all_chars
drop_open_plain x [] h = refl
drop_open_plain x (c ∷ s) h = let f : (code c == x) ≡ false = ground arith in rw f refl

drop_close_plain :
    (x : ℕ) (s : String) → all_chars (λ y. not (y == x)) s ≡ true → drop_close x s ≡ s
unfolding all_chars drop_close
drop_close_plain x [] h = refl
drop_close_plain x (c ∷ []) h = let f : (code c == x) ≡ false = ground arith in rw f refl
drop_close_plain x (c ∷ d ∷ s) h = ap (λ r. c ∷ r) (drop_close_plain x (d ∷ s) (ground arith))

-- A printed address has no blanks and no brackets around it.
pub parse_ip_plain : (s : String) → all_chars is_address_char s ≡ true → parse_ip s ≡ parse_bare s
unfolding parse_ip is_space
parse_ip_plain s h =
    let no_space =
      all_chars_mono is_address_char (λ x. not (is_space x)) (λ x e. ground arith) s h in
    let no_open = all_chars_mono is_address_char (λ x. not (x == b'[')) (λ x e. ground arith) s h in
    let no_close =
      all_chars_mono is_address_char (λ x. not (x == b']')) (λ x e. ground arith) s h in
    rw (trim_plain s no_space, drop_open_plain b'[' s no_open, drop_close_plain b']' s no_close)
      refl

parse_octets-print :
    (bs : Bytes) → All (λ b. b < 256) bs → parse_octets (map print_byte bs) ≡ some bs
unfolding parse_octets
parse_octets-print List.[] h = refl
parse_octets-print (List.◌∷◌ b bs) (h, hs) =
    rw (parse_octet-print_byte b h, parse_octets-print bs hs) refl

pub printed_bytes :
    (p : ℕ → Bool)
    → ((x : ℕ) → is_digit x ≡ true → p x ≡ true)
    → (bs : Bytes) → All (λ b. b < 256) bs
    → All (λ s. all_chars p s ≡ true) (map print_byte bs)
printed_bytes p imp List.[] h = tt
printed_bytes p imp (List.◌∷◌ b bs) (h, hs) = (
  all_chars_mono is_digit p imp (print_byte b) (and-eq-true (print_byte-IsPrinted b h)).0,
  printed_bytes p imp bs hs,
)

pub parse_ipv4-print :
    (a b c d : ℕ)
    → let bs = List.◌∷◌ a (List.◌∷◌ b (List.◌∷◌ c (List.◌∷◌ d List.[]))) in
      All (λ b. b < 256) bs → parse_ipv4 (join "." (map print_byte bs)) ≡ some bs
unfolding parse_ipv4
parse_ipv4-print a b c d h =
    let bs : Bytes = List.◌∷◌ a (List.◌∷◌ b (List.◌∷◌ c (List.◌∷◌ d List.[]))) in
    let parts =
      split-join "." (print_byte a) (map print_byte (List.◌∷◌ b (List.◌∷◌ c (List.◌∷◌ d List.[]))))
        (printed_bytes (λ x. not (x == b'.')) (λ x e. ground arith) bs h) in
    rw parts (parse_octets-print bs h)

-- A text without dots is no mapped IPv4 address.
dotted-none : (s : String) → all_chars (λ y. not (y == b'.')) s ≡ true → dotted (some s) ≡ none
dotted-none s h = rw (split_plain b'.' s h) refl

mapped-none : (s : String) → all_chars (λ y. not (y == b'.')) s ≡ true → mapped s ≡ none
unfolding mapped all_chars
mapped-none [] h = refl
mapped-none (a ∷ []) h = refl
mapped-none (a ∷ b ∷ []) h = refl
mapped-none (a ∷ b ∷ c ∷ []) h = refl
mapped-none (a ∷ b ∷ c ∷ d ∷ []) h = refl
mapped-none (a ∷ b ∷ c ∷ d ∷ e ∷ []) h = refl
mapped-none (a ∷ b ∷ c ∷ d ∷ e ∷ f ∷ []) h = refl
mapped-none (a ∷ b ∷ c ∷ d ∷ e ∷ f ∷ g ∷ rest) h = when_mapped _ (dotted-none rest (ground arith))
  where
    when_mapped :
        (t : Bool) → dotted (some rest) ≡ none → dotted (if t then some rest else none) ≡ none
    when_mapped true e = e
    when_mapped false e = refl

pub has_code-append : (x : ℕ) (s t : String) → has_code x t ≡ true → has_code x (s +++ t) ≡ true
unfolding has_code
has_code-append x [] t h = h
has_code-append x (c ∷ s) t h = rw (has_code-append x s t h) (ground arith)

is_empty-has_code : (x : ℕ) (s : String) → has_code x s ≡ true → is_empty s ≡ false
unfolding has_code
is_empty-has_code x [] h = cc
is_empty-has_code x (c ∷ s) h = refl

-- The parser of IPv6 text reads groups with a colon and without a dot.
pub parse_bare_ipv6 :
    (s : String)
    → has_code b':' s ≡ true
    → all_chars (λ y. not (y == b'.')) s ≡ true
    → parse_bare s ≡ parse_ipv6 s
parse_bare_ipv6 s h k = rw (is_empty-has_code b':' s h, h, mapped-none s k) refl
