-- ===== src/ClientIp/Trusted/Prefix/Bits.antt =====
-- The bits of an address, for apps/server/src/client-ip.ts: what the first of them say of its bytes.
use server_central.Prelude.{
  ℕ, zero, suc, ◌-◌, ◌/◌, ◌%◌, ◌^◌, ◌<◌, ◌≡◌, refl, true, ◌||◌, List, [], ◌∷◌, ◌==◌, arith,
}
use server_central.ClientIp.{Bytes, take}

-- The bits of an address, the highest of each byte first.
unfoldable pub bits_of : Bytes → List ℕ
bits_of [] = []
bits_of (x ∷ xs) =
    (x / 128 % 2)
    ∷ (x / 64 % 2)
    ∷ (x / 32 % 2)
    ∷ (x / 16 % 2)
    ∷ (x / 8 % 2)
    ∷ (x / 4 % 2)
    ∷ (x / 2 % 2)
    ∷ (x % 2)
    ∷ bits_of xs

abbrev pub SameBit : ℕ → ℕ → ℕ → Type 0
SameBit place x y = x / place % 2 ≡ y / place % 2

pub whole_byte :
    (x y : ℕ)
    → x < 256
    → y < 256
    → SameBit 128 x y
    → SameBit 64 x y
    → SameBit 32 x y
    → SameBit 16 x y
    → SameBit 8 x y
    → SameBit 4 x y
    → SameBit 2 x y
    → x % 2 ≡ y % 2
    → x ≡ y
whole_byte x y hx hy a b c d e f g h = omega arith

-- Without its last bits, a byte is settled by the bits in front of them.
abbrev pub Top : ℕ → ℕ → ℕ → Type 0
Top rest x y = ((rest == 0) || (x - x % 2 ^ (8 - rest) == y - y % 2 ^ (8 - rest))) ≡ true

pub first_bits :
    (rest x y : ℕ) (xs ys : Bytes)
    → x < 256
    → y < 256
    → Top rest x y
    → rest < 8
    → take rest (bits_of (x ∷ xs)) ≡ take rest (bits_of (y ∷ ys))
unfolding take bits_of
first_bits zero x y xs ys hx hy h r = refl
first_bits (suc zero) x y xs ys hx hy h r =
    let top : x - x % 128 ≡ y - y % 128 = ground arith in
    let b128 : SameBit 128 x y = omega arith in cc
first_bits (suc (suc zero)) x y xs ys hx hy h r =
    let top : x - x % 64 ≡ y - y % 64 = ground arith in
    let b128 : SameBit 128 x y = omega arith in let b64 : SameBit 64 x y = omega arith in cc
first_bits (suc (suc (suc zero))) x y xs ys hx hy h r =
    let top : x - x % 32 ≡ y - y % 32 = ground arith in
    let b128 : SameBit 128 x y = omega arith in
    let b64 : SameBit 64 x y = omega arith in let b32 : SameBit 32 x y = omega arith in cc
first_bits (suc (suc (suc (suc zero)))) x y xs ys hx hy h r =
    let top : x - x % 16 ≡ y - y % 16 = ground arith in
    let b128 : SameBit 128 x y = omega arith in
    let b64 : SameBit 64 x y = omega arith in
    let b32 : SameBit 32 x y = omega arith in let b16 : SameBit 16 x y = omega arith in cc
first_bits (suc (suc (suc (suc (suc zero))))) x y xs ys hx hy h r =
    let top : x - x % 8 ≡ y - y % 8 = ground arith in
    let b128 : SameBit 128 x y = omega arith in
    let b64 : SameBit 64 x y = omega arith in
    let b32 : SameBit 32 x y = omega arith in
    let b16 : SameBit 16 x y = omega arith in let b8 : SameBit 8 x y = omega arith in cc
first_bits (suc (suc (suc (suc (suc (suc zero)))))) x y xs ys hx hy h r =
    let top : x - x % 4 ≡ y - y % 4 = ground arith in
    let b128 : SameBit 128 x y = omega arith in
    let b64 : SameBit 64 x y = omega arith in
    let b32 : SameBit 32 x y = omega arith in
    let b16 : SameBit 16 x y = omega arith in
    let b8 : SameBit 8 x y = omega arith in let b4 : SameBit 4 x y = omega arith in cc
first_bits (suc (suc (suc (suc (suc (suc (suc zero))))))) x y xs ys hx hy h r =
    let top : x - x % 2 ≡ y - y % 2 = ground arith in
    let b128 : SameBit 128 x y = omega arith in
    let b64 : SameBit 64 x y = omega arith in
    let b32 : SameBit 32 x y = omega arith in
    let b16 : SameBit 16 x y = omega arith in
    let b8 : SameBit 8 x y = omega arith in
    let b4 : SameBit 4 x y = omega arith in let b2 : SameBit 2 x y = omega arith in cc
first_bits (suc (suc (suc (suc (suc (suc (suc (suc rest)))))))) x y xs ys hx hy h r =
    absurd (omega arith)

pub first_bits_conv :
    (rest x y : ℕ) (xs ys : Bytes)
    → x < 256
    → y < 256
    → rest < 8
    → take rest (bits_of (x ∷ xs)) ≡ take rest (bits_of (y ∷ ys))
    → Top rest x y
unfolding take bits_of
first_bits_conv zero x y xs ys hx hy r e = refl
first_bits_conv (suc zero) x y xs ys hx hy r e = let b128 : SameBit 128 x y = cc in ground arith
first_bits_conv (suc (suc zero)) x y xs ys hx hy r e =
    let b128 : SameBit 128 x y = cc in let b64 : SameBit 64 x y = cc in ground arith
first_bits_conv (suc (suc (suc zero))) x y xs ys hx hy r e =
    let b128 : SameBit 128 x y = cc in
    let b64 : SameBit 64 x y = cc in let b32 : SameBit 32 x y = cc in ground arith
first_bits_conv (suc (suc (suc (suc zero)))) x y xs ys hx hy r e =
    let b128 : SameBit 128 x y = cc in
    let b64 : SameBit 64 x y = cc in
    let b32 : SameBit 32 x y = cc in let b16 : SameBit 16 x y = cc in ground arith
first_bits_conv (suc (suc (suc (suc (suc zero))))) x y xs ys hx hy r e =
    let b128 : SameBit 128 x y = cc in
    let b64 : SameBit 64 x y = cc in
    let b32 : SameBit 32 x y = cc in
    let b16 : SameBit 16 x y = cc in let b8 : SameBit 8 x y = cc in ground arith
first_bits_conv (suc (suc (suc (suc (suc (suc zero)))))) x y xs ys hx hy r e =
    let b128 : SameBit 128 x y = cc in
    let b64 : SameBit 64 x y = cc in
    let b32 : SameBit 32 x y = cc in
    let b16 : SameBit 16 x y = cc in
    let b8 : SameBit 8 x y = cc in let b4 : SameBit 4 x y = cc in ground arith
first_bits_conv (suc (suc (suc (suc (suc (suc (suc zero))))))) x y xs ys hx hy r e =
    let b128 : SameBit 128 x y = cc in
    let b64 : SameBit 64 x y = cc in
    let b32 : SameBit 32 x y = cc in
    let b16 : SameBit 16 x y = cc in
    let b8 : SameBit 8 x y = cc in
    let b4 : SameBit 4 x y = cc in let b2 : SameBit 2 x y = cc in ground arith
first_bits_conv (suc (suc (suc (suc (suc (suc (suc (suc rest)))))))) x y xs ys hx hy r e =
    absurd (omega arith)
