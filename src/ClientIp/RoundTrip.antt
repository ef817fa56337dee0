-- ===== src/ClientIp/RoundTrip.antt =====
-- The addresses that apps/server/src/client-ip.ts prints are read back.
pub mod Ipv6
pub mod Plain
pub mod Numbers
pub mod Groups
pub mod Runs
use Prim.Native.String.{[], ◌∷◌}
use server_central.Prelude.{
  ℕ, zero, suc, ◌+◌, ◌*◌, ◌-◌, ◌<◌, ◌≡◌, refl, sym, ap, ◌∙◌, ◌⊎◌, String, Char, code, Bool, true,
  false, not, ◌&&◌, ◌||◌, List, Option, none, some, ◌==◌, leb, ltb, arith, Bool-cases, and-eq-true,
  inl, inr, All, map, length, is_empty, is_space, trim, if◌then◌else◌,
}
use server_central.Prelude.Text.Split.{◌+++◌, split, join, all_chars, has_code}
use server_central.Prelude.Text.Chars.{
  all_chars-append, all_chars-join, all_chars_mono, trim_plain, has_code-false, split_plain,
  split-join,
}
use server_central.ClientIp.{
  Bytes, parse_ip, parse_bare, parse_ipv4, parse_ipv6, parse_octets, print_byte, format, is_digit,
  is_hex, drop_open, drop_close, mapped, after_prefix, dotted, print_groups, print_group,
  print_with, longest_run, groups_of_bytes, take, drop, group_bytes, some_bytes, groups_of_halves,
  exactly_eight, fill, split_double, parse_groups, groups_of, Run,
}
use server_central.ClientIp.RoundTrip.Numbers.{parse_octet-print_byte, print_byte-IsPrinted}
use server_central.ClientIp.RoundTrip.Groups.{
  IsPart, split_double-one, split_double-two, groups_of-join, parse_groups-print, print_group-IsHex,
  print_groups-IsPart,
}
use server_central.ClientIp.RoundTrip.Runs.{
  longest_run-IsZeroRun, no_run, IsZeroRun, fill-IsZeroRun, group_bytes-groups_of_bytes,
  groups_of_bytes-bounded,
}
use server_central.ClientIp.RoundTrip.Plain.{
  is_address_char, parse_ip_plain, printed_bytes, parse_ipv4-print, has_code-append,
  parse_bare_ipv6,
}
use server_central.ClientIp.RoundTrip.Ipv6.{parse_ip-print_with}

length-groups_of_bytes : (bs : Bytes) (k : ℕ) → length bs ≡ 2 * k → length (groups_of_bytes bs) ≡ k
unfolding groups_of_bytes
length-groups_of_bytes List.[] k e = omega arith
length-groups_of_bytes (List.◌∷◌ x List.[]) k e = absurd (omega arith)
length-groups_of_bytes (List.◌∷◌ x (List.◌∷◌ y bs)) k e =
    omega (arith, length-groups_of_bytes bs (k - 1) (omega arith))

parse_bare_ipv4 :
    (s : String) (bs : Bytes)
    → has_code b':' s ≡ false
    → parse_ipv4 s ≡ some bs
    → parse_bare s ≡ some bs
unfolding parse_ipv4 split
parse_bare_ipv4 [] bs h e = cc
parse_bare_ipv4 (c ∷ s) bs h e = rw h e

abbrev is_quad_char : ℕ → Bool
is_quad_char x = is_digit x || x == b'.'

parse_ip-format_ipv4 :
    (bytes : Bytes)
    → All (λ b. b < 256) bytes
    → length bytes ≡ 4
    → parse_ip (format bytes) ≡ some bytes
unfolding format all_chars
parse_ip-format_ipv4 (List.◌∷◌ a (List.◌∷◌ b (List.◌∷◌ c (List.◌∷◌ d List.[])))) h l =
    let bs : Bytes = List.◌∷◌ a (List.◌∷◌ b (List.◌∷◌ c (List.◌∷◌ d List.[]))) in
    let s : String = join "." (map print_byte bs) in
    let quad : all_chars is_quad_char s ≡ true =
      all_chars-join is_quad_char "." (map print_byte bs) refl
        (printed_bytes is_quad_char (λ x e. ground arith) bs h) in
    parse_ip_plain s (all_chars_mono is_quad_char is_address_char (λ x e. ground arith) s quad)
    ∙ parse_bare_ipv4 s bs
        (has_code-false b':' s
          (all_chars_mono is_quad_char (λ x. not (x == b':')) (λ x e. ground arith) s quad))
        (parse_ipv4-print a b c d h)
parse_ip-format_ipv4 bytes h l = absurd (omega arith)

-- Ten bytes of zeros, two of ones, and an IPv4 address.
abbrev pub IsMapped : Bytes → Type 0
IsMapped bytes =
    (rest : Bytes) × (bytes
      ≡ List.◌∷◌ 0 (
          List.◌∷◌ 0 (
            List.◌∷◌ 0 (
              List.◌∷◌ 0 (
                List.◌∷◌ 0 (
                  List.◌∷◌ 0 (
                    List.◌∷◌ 0 (
                      List.◌∷◌ 0
                        (List.◌∷◌ 0 (List.◌∷◌ 0 (List.◌∷◌ 255 (List.◌∷◌ 255 rest))))))))))))

-- An IPv4 address that is printed is read back, and so is an IPv6 address, from its shortened form
-- too, if it is not an IPv4-mapped one.
pub parse_ip-format :
    (bytes : Bytes)
    → All (λ b. b < 256) bytes
    → (length bytes ≡ 4) ⊎ ((length bytes ≡ 16) × ¬ IsMapped bytes)
    → parse_ip (format bytes) ≡ some bytes
unfolding format
parse_ip-format bytes h (inl l) = parse_ip-format_ipv4 bytes h l
parse_ip-format bytes h (inr (l, own)) =
    let groups = length-groups_of_bytes bytes 8 l in
    rw l (
      parse_ip-print_with (groups_of_bytes bytes) (groups_of_bytes-bounded bytes h) groups
        (longest_run 0 no_run (groups_of_bytes bytes))
        (longest_run-IsZeroRun (groups_of_bytes bytes))
      ∙ ap some (group_bytes-groups_of_bytes bytes 8 l h))
