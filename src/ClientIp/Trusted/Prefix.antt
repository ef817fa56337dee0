-- ===== src/ClientIp/Trusted/Prefix.antt =====
-- `inCidr` of apps/server/src/client-ip.ts against the bits of the two addresses.
pub mod Bits
use server_central.Prelude.{
  ℕ, zero, suc, ◌+◌, ◌-◌, ◌*◌, ◌/◌, ◌%◌, ◌^◌, ◌≤◌, ◌<◌, ◌≡◌, refl, sym, ap, ◌∙◌, ◌↔◌, ◌⊎◌, inl, inr,
  Bool, true, false, ◌&&◌, ◌||◌, List, [], ◌∷◌, ◌++◌, ◌==◌, Bool-cases, arith, All, length, subst,
}
use server_central.ClientIp.{Bytes, take}
use server_central.ClientIp.Trusted.{Cidr, same_prefix, in_cidr}
use server_central.ClientIp.Trusted.Prefix.Bits.{bits_of, whole_byte, first_bits, first_bits_conv}

abbrev pub IsByte : ℕ → Type 0
IsByte x = x < 256

abbrev pub SameBits : ℕ → Bytes → Bytes → Type 0
SameBits n xs ys = take n (bits_of xs) ≡ take n (bits_of ys)

same_count : (xs ys : Bytes) (k n : ℕ) → k ≡ n → SameBits k xs ys → SameBits n xs ys
same_count xs ys k n e h = subst (λ m. SameBits m xs ys) e h

next_byte :
    (k x y : ℕ) (xs ys : Bytes)
    → x ≡ y
    → SameBits k xs ys
    → SameBits (suc (suc (suc (suc (suc (suc (suc (suc k)))))))) (x ∷ xs) (y ∷ ys)
unfolding take bits_of
next_byte k x y xs ys e f = cc

next_byte_conv :
    (k x y : ℕ) (xs ys : Bytes)
    → x < 256
    → y < 256
    → SameBits (suc (suc (suc (suc (suc (suc (suc (suc k)))))))) (x ∷ xs) (y ∷ ys)
    → (x ≡ y) × SameBits k xs ys
unfolding take bits_of
next_byte_conv k x y xs ys hx hy e =
    (whole_byte x y hx hy (cc) (cc) (cc) (cc) (cc) (cc) (cc) (cc), cc)

-- Two addresses of `whole * 8 + rest` bits at least, compared by bytes and by bits.
same_prefix_iff :
    (whole rest : ℕ) (xs ys : Bytes)
    → rest < 8
    → length xs ≡ length ys
    → whole * 8 + rest ≤ length xs * 8
    → All IsByte xs
    → All IsByte ys
    → (same_prefix whole rest xs ys ≡ true) ↔ SameBits (whole * 8 + rest) xs ys
unfolding same_prefix
same_prefix_iff zero rest [] [] r l b hx hy = (λ h. refl, λ h. refl)
same_prefix_iff (suc whole) rest [] [] r l b hx hy = absurd (omega arith)
same_prefix_iff whole rest [] (y ∷ ys) r l b hx hy = absurd (omega arith)
same_prefix_iff whole rest (x ∷ xs) [] r l b hx hy = absurd (omega arith)
same_prefix_iff zero rest (x ∷ xs) (y ∷ ys) r l b (hx, hxs) (hy, hys) = (
  λ h.
      same_count (x ∷ xs) (y ∷ ys) rest (zero * 8 + rest) (omega arith)
        (first_bits rest x y xs ys hx hy h r),
  λ e.
      first_bits_conv rest x y xs ys hx hy r
        (same_count (x ∷ xs) (y ∷ ys) (zero * 8 + rest) rest (omega arith) e),
)
same_prefix_iff (suc whole) rest (x ∷ xs) (y ∷ ys) r l b (hx, hxs) (hy, hys) =
    let ih = same_prefix_iff whole rest xs ys r (omega arith) (omega arith) hxs hys in
    (
      λ h.
          same_count (x ∷ xs) (y ∷ ys)
            (suc (suc (suc (suc (suc (suc (suc (suc (whole * 8 + rest)))))))))
            (suc whole * 8 + rest) (omega arith)
            (next_byte (whole * 8 + rest) x y xs ys (ground arith) (ih.0 (ground arith))),
      λ e.
          let (same, more) = next_byte_conv (whole * 8 + rest) x y xs ys hx hy (
            same_count (x ∷ xs) (y ∷ ys) (suc whole * 8 + rest)
              (suc (suc (suc (suc (suc (suc (suc (suc (whole * 8 + rest))))))))) (omega arith) e) in
          let tail = ih.1 more in ground arith,
    )

-- An address is in a block when it is of the same family and its first bits, as many as the prefix
-- length says, are the block's.
pub in_cidr_iff :
    (ip : Bytes) (cidr : Cidr)
    → All IsByte ip
    → All IsByte cidr.bytes
    → cidr.bits ≤ length cidr.bytes * 8
    → (in_cidr ip cidr ≡ true)
      ↔ ((length ip ≡ length cidr.bytes) × SameBits cidr.bits ip cidr.bytes)
unfolding in_cidr
in_cidr_iff ip cidr hx hy b = (
  λ h.
      let same : length ip ≡ length cidr.bytes = ground arith in
      (
        same,
        same_count ip cidr.bytes (cidr.bits / 8 * 8 + cidr.bits % 8) cidr.bits (omega arith)
            ((whole same).0 (ground arith)),
      ),
  λ h.
      let bits = (whole h.0).1 (
        same_count ip cidr.bytes cidr.bits (cidr.bits / 8 * 8 + cidr.bits % 8) (omega arith) h.1) in
      let same = h.0 in ground arith,
)
  where
    whole :
        length ip ≡ length cidr.bytes
        → (same_prefix (cidr.bits / 8) (cidr.bits % 8) ip cidr.bytes ≡ true)
          ↔ SameBits (cidr.bits / 8 * 8 + cidr.bits % 8) ip cidr.bytes
    whole l =
        same_prefix_iff (cidr.bits / 8) (cidr.bits % 8) ip cidr.bytes (omega arith) l (omega arith)
          hx hy
