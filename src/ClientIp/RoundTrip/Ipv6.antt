-- ===== src/ClientIp/RoundTrip/Ipv6.antt =====
-- A printed IPv6 address, for apps/server/src/client-ip.ts.
use server_central.Prelude.{
  ℕ, zero, suc, ◌+◌, ◌<◌, ◌≡◌, refl, ap, ◌∙◌, String, true, not, ◌||◌, List, some, ◌==◌, ltb, arith,
  Bool-cases, inl, inr, All, map, length,
}
use server_central.Prelude.Text.Split.{◌+++◌, join, all_chars, has_code}
use server_central.Prelude.Text.Chars.{all_chars-append, all_chars-join, all_chars_mono}
use server_central.ClientIp.{
  parse_ip, parse_ipv6, is_hex, print_groups, print_group, print_with, take, drop, group_bytes,
  parse_groups, groups_of, Run,
}
use server_central.ClientIp.RoundTrip.Groups.{
  split_double-one, split_double-two, groups_of-join, parse_groups-print, print_group-IsHex,
  print_groups-IsPart,
}
use server_central.ClientIp.RoundTrip.Runs.{IsZeroRun, fill-IsZeroRun}
use server_central.ClientIp.RoundTrip.Plain.{
  is_address_char, parse_ip_plain, has_code-append, parse_bare_ipv6,
}

hex_chars :
    (gs : List ℕ)
    → All (λ g. g < 65536) gs
    → All (λ s. all_chars (λ x. is_hex x || x == b':') s ≡ true) (map print_group gs)
hex_chars List.[] h = tt
hex_chars (List.◌∷◌ g gs) (h, hs) = (
  all_chars_mono is_hex (λ x. is_hex x || x == b':') (λ x e. ground arith) (print_group g)
      (print_group-IsHex g h),
  hex_chars gs hs,
)

print_groups-chars :
    (gs : List ℕ)
    → All (λ g. g < 65536) gs
    → all_chars (λ x. is_hex x || x == b':') (print_groups gs) ≡ true
unfolding all_chars
print_groups-chars gs h =
    all_chars-join (λ x. is_hex x || x == b':') ":" (map print_group gs) refl (hex_chars gs h)

All-take : (n : ℕ) (gs : List ℕ) → All (λ g. g < 65536) gs → All (λ g. g < 65536) (take n gs)
unfolding take
All-take zero gs h = tt
All-take (suc n) List.[] h = tt
All-take (suc n) (List.◌∷◌ g gs) (h, hs) = (h, All-take n gs hs)

All-drop : (n : ℕ) (gs : List ℕ) → All (λ g. g < 65536) gs → All (λ g. g < 65536) (drop n gs)
unfolding drop
All-drop zero gs h = h
All-drop (suc n) List.[] h = tt
All-drop (suc n) (List.◌∷◌ g gs) (h, hs) = All-drop n gs hs

parse_print_groups :
    (gs : List ℕ) → All (λ g. g < 65536) gs → parse_groups (groups_of (print_groups gs)) ≡ some gs
parse_print_groups gs h =
    ap parse_groups (groups_of-join (map print_group gs) (print_groups-IsPart gs h))
    ∙ parse_groups-print gs h

colon_between : (s t : String) → has_code b':' (s +++ (":" +++ t)) ≡ true
unfolding has_code
colon_between s t = has_code-append b':' s (":" +++ t) refl

print_groups-colon : (gs : List ℕ) → length gs ≡ 8 → has_code b':' (print_groups gs) ≡ true
unfolding join
print_groups-colon List.[] e = absurd (omega arith)
print_groups-colon (List.◌∷◌ g List.[]) e = absurd (omega arith)
print_groups-colon (List.◌∷◌ g (List.◌∷◌ h gs)) e =
    colon_between (print_group g) (print_groups (List.◌∷◌ h gs))

module _ (gs : List ℕ) (bounded : All (λ g. g < 65536) gs) (eight : length gs ≡ 8) where
  -- The text of eight groups, with a run of zeros replaced or not.
  print_with-chars : (run : Run) → all_chars (λ x. is_hex x || x == b':') (print_with run gs) ≡ true
  unfolding all_chars
  print_with-chars run = elim (Bool-cases (ltb run.size 2)) [
    | inl e ↦ rw e (print_groups-chars gs bounded)
    | inr e ↦ rw e (
        all_chars-append (λ x. is_hex x || x == b':') (print_groups (take run.start gs))
          ("::" +++ print_groups (drop (run.start + run.size) gs))
          (print_groups-chars (take run.start gs) (All-take run.start gs bounded))
          (all_chars-append (λ x. is_hex x || x == b':') "::"
            (print_groups (drop (run.start + run.size) gs)) refl
            (print_groups-chars (drop (run.start + run.size) gs)
              (All-drop (run.start + run.size) gs bounded))))
  ]

  print_with-colon : (run : Run) → has_code b':' (print_with run gs) ≡ true
  print_with-colon run = elim (Bool-cases (ltb run.size 2)) [
    | inl e ↦ rw e (print_groups-colon gs eight)
    | inr e ↦ rw e (
        colon_between (print_groups (take run.start gs))
          (":" +++ print_groups (drop (run.start + run.size) gs)))
  ]

  parse_ipv6-print_with :
      (run : Run) → IsZeroRun gs run → parse_ipv6 (print_with run gs) ≡ some (group_bytes gs)
  unfolding parse_ipv6
  parse_ipv6-print_with run z = elim (Bool-cases (ltb run.size 2)) [
    | inl e ↦
        rw
          (
            e,
            split_double-one (map print_group gs) (print_groups-IsPart gs bounded),
            parse_print_groups gs bounded,
            eight,
          )
          refl
    | inr e ↦
        let left = All-take run.start gs bounded in
        let right = All-drop (run.start + run.size) gs bounded in
        rw
          (
            e,
            split_double-two (map print_group (take run.start gs))
                (map print_group (drop (run.start + run.size) gs)) (print_groups-IsPart _ left)
                (print_groups-IsPart _ right),
            parse_print_groups _ left,
            parse_print_groups _ right,
            fill-IsZeroRun gs run eight z e,
          )
          refl
  ]

  pub parse_ip-print_with :
      (run : Run) → IsZeroRun gs run → parse_ip (print_with run gs) ≡ some (group_bytes gs)
  parse_ip-print_with run z =
      parse_ip_plain (print_with run gs) (
        all_chars_mono (λ x. is_hex x || x == b':') is_address_char (λ x e. ground arith)
          (print_with run gs) (print_with-chars run))
      ∙ parse_bare_ipv6 (print_with run gs) (print_with-colon run) (
          all_chars_mono (λ x. is_hex x || x == b':') (λ y. not (y == b'.')) (λ x e. ground arith)
            (print_with run gs) (print_with-chars run))
      ∙ parse_ipv6-print_with run z
