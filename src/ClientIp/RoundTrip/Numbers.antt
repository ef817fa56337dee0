-- ===== src/ClientIp/RoundTrip/Numbers.antt =====
-- The numbers in the addresses of apps/server/src/client-ip.ts are read back from their digits.
use Prim.Native.String.{[], ◌∷◌}
use server_central.Prelude.{
  ℕ, zero, suc, ◌+◌, ◌<◌, ◌≡◌, refl, ap, ◌∙◌, ◌*◌, String, code, Bool, true, false, not, ◌&&◌,
  Option, none, some, ◌==◌, arith, Bool-cases, and-eq-true, Char, ◌/◌, ◌%◌, leb, ltb, inl, inr,
  subst, is_empty,
}
use server_central.Prelude.Text.Split.{all_chars, append-nil, ◌+++◌}
use server_central.ClientIp.{
  parse_octet, print_byte, parse_group, print_group, is_digit, is_hex, digit_at, digit, hex_value,
  hex_digit, count,
}

abbrev gives : ℕ → Option ℕ → Bool
gives n none = false
gives n (some m) = m == n

gives-some : (n : ℕ) (o : Option ℕ) → gives n o ≡ true → o ≡ some n
gives-some n none h = cc
gives-some n (some m) h = let e : m ≡ n = ground arith in cc

-- The test holds of every number below the bound.
unfoldable below : ℕ → (ℕ → Bool) → Bool
below zero p = true
below (suc n) p = p n && below n p

below-at : (n : ℕ) (p : ℕ → Bool) (k : ℕ) → below n p ≡ true → k < n → p k ≡ true
unfolding below
below-at zero p k h l = absurd (omega arith)
below-at (suc n) p k h l = elim (Bool-cases (k == n)) [
  | inl e ↦ let same : n ≡ k = ground arith in subst (λ m. p m ≡ true) same (ground arith)
  | inr e ↦ below-at n p k (ground arith) (ground arith)
]

-- Digits and nothing else, one at least.
abbrev pub is_printed_byte : ℕ → Bool
is_printed_byte n = all_chars is_digit (print_byte n) && not (is_empty (print_byte n))

pub parse_octet-print_byte : (n : ℕ) → n < 256 → parse_octet (print_byte n) ≡ some n
unfolding below parse_octet print_byte
parse_octet-print_byte n h =
    gives-some n (parse_octet (print_byte n))
      (below-at 256 (λ m. gives m (parse_octet (print_byte m))) n refl h)

pub print_byte-IsPrinted : (n : ℕ) → n < 256 → is_printed_byte n ≡ true
unfolding below print_byte all_chars
print_byte-IsPrinted n h = below-at 256 is_printed_byte n refl h

-- One hexadecimal digit of that value.
abbrev is_digit_of : String → ℕ → Bool
is_digit_of (c ∷ []) d = is_hex (code c) && hex_digit (code c) == d
is_digit_of _ d = false

record Digit (s : String) (d : ℕ) : Type 0 where
  char : Char
  text : s ≡ char ∷ []
  hex : is_hex (code char) ≡ true
  value : hex_digit (code char) ≡ d

Digit-of_test : (s : String) (d : ℕ) → is_digit_of s d ≡ true → Digit s d
Digit-of_test [] d h = cc
Digit-of_test (c ∷ []) d h = record {
  char = c;
  text = refl;
  hex = (and-eq-true h).0;
  value = let v = (and-eq-true {a = is_hex (code c)} h).1 in ground arith;
}
Digit-of_test (c ∷ e ∷ s) d h = cc

digit-Digit : (d : ℕ) → d < 16 → Digit (digit d) d
unfolding below digit_at
digit-Digit d h = Digit-of_test (digit d) d (below-at 16 (λ m. is_digit_of (digit m) m) d refl h)

-- Hexadecimal digits, so many of them, with what reading them makes of the number read before.
record Hex (s : String) (k : ℕ) (f : ℕ → ℕ) : Type 0 where
  chars : all_chars is_hex s ≡ true
  many : count s ≡ k
  reads : (n : ℕ) → hex_value n s ≡ f n

no_digits : Hex [] 0 (λ n. n)
unfolding all_chars count hex_value
no_digits = record { chars = refl; many = refl; reads = λ n. refl }

put-Digit :
    {t s : String} {d k : ℕ} {f : ℕ → ℕ}
    → Digit t d
    → Hex s k f
    → Hex (t +++ s) (suc k) (λ n. f (n * 16 + d))
unfolding all_chars count hex_value
put-Digit {s = s} {d = d} a h = record {
  chars = rw (a.text, a.hex) h.chars;
  many = rw a.text (ap suc h.many);
  reads = λ n. rw a.text (ap (λ e. hex_value (n * 16 + e) s) a.value ∙ h.reads (n * 16 + d));
}

last-Digit : {t : String} {d : ℕ} → Digit t d → Hex t 1 (λ n. n * 16 + d)
last-Digit {t} {d} a = subst (λ s. Hex s 1 (λ n. n * 16 + d)) (append-nil t) (put-Digit a no_digits)

read_group :
    {s : String} {k : ℕ} {f : ℕ → ℕ}
    → Hex s k f
    → leb 1 k ≡ true
    → leb k 4 ≡ true
    → parse_group s ≡ some (f 0)
unfolding parse_group
read_group h a b = rw (h.chars, h.many, a, b, h.reads 0) refl

read_value :
    {s : String} {k : ℕ} {f : ℕ → ℕ} {n : ℕ}
    → Hex s k f
    → leb 1 k ≡ true
    → leb k 4 ≡ true
    → f 0 ≡ n
    → parse_group s ≡ some n
read_value h a b e = read_group h a b ∙ ap some e

pub parse_group-print_group : (n : ℕ) → n < 65536 → parse_group (print_group n) ≡ some n
unfolding print_group
parse_group-print_group n h = elim (Bool-cases (ltb n 16)) [
  | inl e ↦ rw e (read_value (last-Digit (digit-Digit n (ground arith))) refl refl (omega arith))
  | inr e ↦ elim (Bool-cases (ltb n 256)) [
    | inl f ↦
        rw (e, f)
          (read_value (put-Digit (digit-Digit (n / 16) (ground arith)) last) refl refl
            (omega arith))
    | inr f ↦ elim (Bool-cases (ltb n 4096)) [
      | inl g ↦
          rw (e, f, g)
            (read_value (put-Digit (digit-Digit (n / 256) (ground arith)) (put-Digit second last))
              refl refl (omega arith))
      | inr g ↦
          rw (e, f, g)
            (read_value
              (put-Digit (digit-Digit (n / 4096) (omega arith))
                (put-Digit third (put-Digit second last)))
              refl refl (omega arith))
    ]
  ]
]
  where
    last : Hex (digit (n % 16)) 1 (λ m. m * 16 + n % 16)
    last = last-Digit (digit-Digit (n % 16) (omega arith))

    second : Digit (digit (n / 16 % 16)) (n / 16 % 16)
    second = digit-Digit (n / 16 % 16) (omega arith)

    third : Digit (digit (n / 256 % 16)) (n / 256 % 16)
    third = digit-Digit (n / 256 % 16) (omega arith)
