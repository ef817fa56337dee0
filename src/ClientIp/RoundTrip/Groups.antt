-- ===== src/ClientIp/RoundTrip/Groups.antt =====
-- `parseIpv6` of apps/server/src/client-ip.ts on groups that are joined by colons.
use Prim.Native.String.{[], ◌∷◌}
use server_central.Prelude.{
  ℕ, ◌<◌, ◌≡◌, refl, ap, ◌∙◌, sym, String, code, true, false, not, List, some, ◌==◌, arith,
  and-eq-true, All, map, is_empty,
}
use server_central.Prelude.Text.Split.{
  ◌+++◌, split, join, all_chars, cons_head, append_assoc, append-nil,
}
use server_central.Prelude.Text.Chars.{all_chars_mono, split-join}
use server_central.ClientIp.{
  split_double, groups_of, parse_groups, print_group, parse_group, count, is_hex,
}
use server_central.ClientIp.RoundTrip.Numbers.{parse_group-print_group}

-- A text without a colon.
abbrev pub IsPart : String → Type 0
IsPart s = (all_chars (λ x. not (x == b':')) s ≡ true) × (is_empty s ≡ false)

abbrev in_front : String → List String → List String
in_front [] l = l
in_front (c ∷ s) l = cons_head c (in_front s l)

in_front-cons : (s h : String) (l : List String) → in_front s (List.◌∷◌ h l) ≡ List.◌∷◌ (s +++ h) l
in_front-cons [] h l = refl
in_front-cons (c ∷ s) h l = ap (cons_head c) (in_front-cons s h l)

split_double-part :
    (s t : String)
    → all_chars (λ x. not (x == b':')) s ≡ true
    → split_double false (s +++ t) ≡ in_front s (split_double false t)
unfolding split_double all_chars
split_double-part [] t h = refl
split_double-part (c ∷ s) t h =
    let (a, b) = and-eq-true {a = not (code c == b':')} h in
    let f : (code c == b':') ≡ false = ground arith in
    rw f (ap (cons_head c) (split_double-part s t b))

-- A single colon stays where it is.
split_double-colon :
    (s t : String)
    → IsPart s
    → split_double false (":" +++ (s +++ t)) ≡ cons_head ":" (split_double false (s +++ t))
unfolding split_double all_chars
split_double-colon [] t (h, n) = cc
split_double-colon (c ∷ s) t (h, n) = let f : (code c == b':') ≡ false = ground arith in rw f refl

in_front-append :
    (s t : String) (l : List String) → in_front (s +++ t) l ≡ in_front s (in_front t l)
in_front-append [] t l = refl
in_front-append (c ∷ s) t l = ap (cons_head c) (in_front-append s t l)

split_double-colon-join :
    (y : String) (xs : List String) (t : String)
    → IsPart y
    → split_double false (":" +++ (join ":" (List.◌∷◌ y xs) +++ t))
      ≡ cons_head ":" (split_double false (join ":" (List.◌∷◌ y xs) +++ t))
unfolding join
split_double-colon-join y List.[] t h = split_double-colon y t h
split_double-colon-join y (List.◌∷◌ z xs) t h =
    rw (append_assoc y (":" +++ join ":" (List.◌∷◌ z xs)) t)
      (split_double-colon y ((":" +++ join ":" (List.◌∷◌ z xs)) +++ t) h)

split_double-join :
    (xs : List String) (t : String)
    → All IsPart xs
    → split_double false (join ":" xs +++ t) ≡ in_front (join ":" xs) (split_double false t)
unfolding join
split_double-join List.[] t h = refl
split_double-join (List.◌∷◌ x List.[]) t (h, hs) = split_double-part x t h.0
split_double-join (List.◌∷◌ x (List.◌∷◌ y xs)) t (h, ks) =
    ap (split_double false) (append_assoc x (":" +++ join ":" (List.◌∷◌ y xs)) t)
    ∙ split_double-part x (":" +++ (join ":" (List.◌∷◌ y xs) +++ t)) h.0
    ∙ ap (in_front x) (split_double-colon-join y xs t ks.0)
    ∙ ap (λ l. in_front x (cons_head ":" l)) (split_double-join (List.◌∷◌ y xs) t ks)
    ∙ sym (in_front-append x (":" +++ join ":" (List.◌∷◌ y xs)) (split_double false t))

pub split_double-one :
    (xs : List String)
    → All IsPart xs
    → split_double false (join ":" xs) ≡ List.◌∷◌ (join ":" xs) List.[]
unfolding split_double
split_double-one xs h =
    ap (split_double false) (sym (append-nil (join ":" xs)))
    ∙ split_double-join xs [] h
    ∙ in_front-cons (join ":" xs) [] List.[]
    ∙ ap (λ s. List.◌∷◌ s List.[]) (append-nil (join ":" xs))

pub split_double-two :
    (xs ys : List String)
    → All IsPart xs
    → All IsPart ys
    → split_double false (join ":" xs +++ ("::" +++ join ":" ys))
      ≡ List.◌∷◌ (join ":" xs) (List.◌∷◌ (join ":" ys) List.[])
unfolding split_double
split_double-two xs ys h k =
    split_double-join xs ("::" +++ join ":" ys) h
    ∙ ap (λ l. in_front (join ":" xs) (List.◌∷◌ [] l)) (split_double-one ys k)
    ∙ in_front-cons (join ":" xs) [] (List.◌∷◌ (join ":" ys) List.[])
    ∙ ap (λ s. List.◌∷◌ s (List.◌∷◌ (join ":" ys) List.[])) (append-nil (join ":" xs))

groups_of-split : (s : String) → is_empty s ≡ false → groups_of s ≡ split b':' s
groups_of-split [] h = cc
groups_of-split (c ∷ s) h = refl

is_empty-append : (s t : String) → is_empty s ≡ false → is_empty (s +++ t) ≡ false
is_empty-append [] t h = cc
is_empty-append (c ∷ s) t h = refl

is_empty-join :
    (x : String) (xs : List String)
    → is_empty x ≡ false
    → is_empty (join ":" (List.◌∷◌ x xs)) ≡ false
unfolding join
is_empty-join x List.[] h = h
is_empty-join x (List.◌∷◌ y xs) h = is_empty-append x (":" +++ join ":" (List.◌∷◌ y xs)) h

colon_free :
    (xs : List String) → All IsPart xs → All (λ s. all_chars (λ y. not (y == b':')) s ≡ true) xs
colon_free List.[] h = tt
colon_free (List.◌∷◌ x xs) (h, hs) = (h.0, colon_free xs hs)

pub groups_of-join : (xs : List String) → All IsPart xs → groups_of (join ":" xs) ≡ xs
unfolding join
groups_of-join List.[] h = refl
groups_of-join (List.◌∷◌ x xs) (h, hs) =
    groups_of-split (join ":" (List.◌∷◌ x xs)) (is_empty-join x xs h.1)
    ∙ split-join ":" x xs (colon_free (List.◌∷◌ x xs) (h, hs))

pub parse_groups-print :
    (gs : List ℕ) → All (λ g. g < 65536) gs → parse_groups (map print_group gs) ≡ some gs
unfolding parse_groups
parse_groups-print List.[] h = refl
parse_groups-print (List.◌∷◌ g gs) (h, hs) =
    rw (parse_group-print_group g h, parse_groups-print gs hs) refl

-- A text that reads as a group has hexadecimal digits only, and one at least.
IsHex-of_group :
    (s : String) (n : ℕ)
    → parse_group s ≡ some n
    → (all_chars is_hex s ≡ true) × (is_empty s ≡ false)
unfolding parse_group count
IsHex-of_group [] n h = cc
IsHex-of_group (c ∷ s) n h = (ground arith, refl)

pub print_group-IsHex : (g : ℕ) → g < 65536 → all_chars is_hex (print_group g) ≡ true
print_group-IsHex g h = (IsHex-of_group (print_group g) g (parse_group-print_group g h)).0

print_group-IsPart : (g : ℕ) → g < 65536 → IsPart (print_group g)
print_group-IsPart g h =
    let (hex, n) = IsHex-of_group (print_group g) g (parse_group-print_group g h) in
    (all_chars_mono is_hex (λ x. not (x == b':')) (λ x e. ground arith) (print_group g) hex, n)

pub print_groups-IsPart : (gs : List ℕ) → All (λ g. g < 65536) gs → All IsPart (map print_group gs)
print_groups-IsPart List.[] h = tt
print_groups-IsPart (List.◌∷◌ g gs) (h, hs) = (print_group-IsPart g h, print_groups-IsPart gs hs)
