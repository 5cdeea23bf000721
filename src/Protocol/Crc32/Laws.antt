-- ===== src/Protocol/Crc32/Laws.antt =====
-- What a CRC-32 detects: every round of the loop is injective on 32-bit states, so two buffers
-- that differ in one byte never share a checksum.
use smol_wi_fi_receiver.Base.{
  ℕ, zero, suc, ◌-◌, ◌/◌, ◌%◌, ◌^◌, ◌≤◌, ◌<◌, bit_xor, List, [], ◌∷◌, ◌≡◌, ◌≢◌, refl, sym, ap, ◌∙◌,
  ◌⊎◌, inl, inr, arith, take, set, length, length-take, take-append, take-all, take-set,
  get_or-take, ◌++◌, All-take, All-set, dec_lt,
}
use smol_wi_fi_receiver.Base.Bits.{
  bit_and_mask, bit_xor-lt, bit_xor_comm, bit_xor_cancel, bit_xor_injective, zero-bit_xor,
}
use smol_wi_fi_receiver.Base.Bytes.{IsByte, IsBytes, byte_at}
use smol_wi_fi_receiver.Protocol.Crc32.{polynomial, crc_bit, crc_bits, crc_bytes, sv_crc32_ieee}

-- The mask selects: shift, and xor the polynomial in if a one was shifted out.
crc_bit_even : (c : ℕ) → c % 2 ≡ 0 → crc_bit c ≡ c / 2
unfolding crc_bit
crc_bit_even c e = rw (bit_and_mask 1 c, e, bit_xor_comm) (zero-bit_xor (c / 2))

crc_bit_odd : (c : ℕ) → c % 2 ≡ 1 → crc_bit c ≡ bit_xor (c / 2) polynomial
unfolding crc_bit
crc_bit_odd c e = rw (bit_and_mask 1 c, e) refl

parity : (c : ℕ) → (c % 2 ≡ 0) ⊎ (c % 2 ≡ 1)
parity c = ground arith

pub crc_bit-lt : (c : ℕ) → c < 2 ^ 32 → crc_bit c < 2 ^ 32
crc_bit-lt c h = elim (parity c) [
  | inl e ↦ omega (arith, crc_bit_even c e)
  | inr e ↦ rw (crc_bit_odd c e) (bit_xor-lt 32 (c / 2) polynomial (omega arith) (omega arith))
]

-- The polynomial's top bit records that a one was shifted out.
crc_bit_top : (c : ℕ) → c < 2 ^ 32 → c % 2 ≡ 1 → 2 ^ 31 ≤ crc_bit c
crc_bit_top c h e = rw (crc_bit_odd c e) elim (dec_lt (bit_xor (c / 2) polynomial) (2 ^ 31)) [
  | yes small ↦ absurd (
      omega (
        arith,
        bit_xor_cancel polynomial (c / 2),
        bit_xor_comm polynomial (c / 2),
        bit_xor-lt 31 (bit_xor polynomial (c / 2)) (c / 2)
            (omega (arith, bit_xor_comm polynomial (c / 2))) (omega arith),
      ))
  | no large ↦ omega arith
]

crc_bit_injective : (a b : ℕ) → a < 2 ^ 32 → b < 2 ^ 32 → crc_bit a ≡ crc_bit b → a ≡ b
crc_bit_injective a b ha hb e = elim (parity a) [
  | inl p ↦ elim (parity b) [
    | inl q ↦ omega (arith, crc_bit_even a p, crc_bit_even b q)
    | inr q ↦ absurd (omega (arith, crc_bit_even a p, crc_bit_top b hb q))
  ]
  | inr p ↦ elim (parity b) [
    | inl q ↦ absurd (omega (arith, crc_bit_top a ha p, crc_bit_even b q))
    | inr q ↦ omega (arith, odd_halves p q)
  ]
]
  where
    odd_halves : a % 2 ≡ 1 → b % 2 ≡ 1 → a / 2 ≡ b / 2
    odd_halves p q = bit_xor_injective polynomial (a / 2) (b / 2) (
        bit_xor_comm polynomial (a / 2)
        ∙ sym (crc_bit_odd a p)
        ∙ e
        ∙ crc_bit_odd b q
        ∙ bit_xor_comm (b / 2) polynomial)

pub crc_bits-lt : (n c : ℕ) → c < 2 ^ 32 → crc_bits n c < 2 ^ 32
unfolding crc_bits
crc_bits-lt zero c h = h
crc_bits-lt (suc n) c h = crc_bits-lt n (crc_bit c) (crc_bit-lt c h)

crc_bits_injective : (n a b : ℕ) → a < 2 ^ 32 → b < 2 ^ 32 → crc_bits n a ≡ crc_bits n b → a ≡ b
unfolding crc_bits
crc_bits_injective zero a b ha hb e = e
crc_bits_injective (suc n) a b ha hb e =
    crc_bit_injective a b ha hb
      (crc_bits_injective n (crc_bit a) (crc_bit b) (crc_bit-lt a ha) (crc_bit-lt b hb) e)

-- One byte of the outer loop.
abbrev absorb : ℕ → ℕ → ℕ
absorb c x = crc_bits 8 (bit_xor c x)

xor_byte-lt : (c x : ℕ) → c < 2 ^ 32 → x < 256 → bit_xor c x < 2 ^ 32
xor_byte-lt c x h p = bit_xor-lt 32 c x h (omega arith)

absorb-lt : (c x : ℕ) → c < 2 ^ 32 → x < 256 → absorb c x < 2 ^ 32
absorb-lt c x h p = crc_bits-lt 8 (bit_xor c x) (xor_byte-lt c x h p)

pub crc_bytes-lt : (c : ℕ) (xs : List ℕ) → c < 2 ^ 32 → IsBytes xs → crc_bytes c xs < 2 ^ 32
unfolding crc_bytes
crc_bytes-lt c [] h p = h
crc_bytes-lt c (x ∷ xs) h p = crc_bytes-lt (absorb c x) xs (absorb-lt c x h p.0) p.1

-- Equal checksums of one text mean equal starting states.
crc_bytes_injective :
    (xs : List ℕ) (a b : ℕ)
    → a < 2 ^ 32
    → b < 2 ^ 32
    → IsBytes xs
    → crc_bytes a xs ≡ crc_bytes b xs
    → a ≡ b
unfolding crc_bytes
crc_bytes_injective [] a b ha hb p e = e
crc_bytes_injective (x ∷ xs) a b ha hb p e =
    let states : bit_xor a x ≡ bit_xor b x =
      crc_bits_injective 8 (bit_xor a x) (bit_xor b x) (xor_byte-lt a x ha p.0)
        (xor_byte-lt b x hb p.0)
        (crc_bytes_injective xs (absorb a x) (absorb b x) (absorb-lt a x ha p.0)
          (absorb-lt b x hb p.0) p.1 e) in
    bit_xor_injective x a b (bit_xor_comm x a ∙ states ∙ bit_xor_comm b x)

-- Overwriting one byte without changing the checksum writes the byte that was there.
crc_bytes-set :
    (xs : List ℕ) (i v c : ℕ)
    → c < 2 ^ 32
    → v < 256
    → IsBytes xs
    → i < length xs
    → crc_bytes c (set xs i v) ≡ crc_bytes c xs
    → byte_at xs i ≡ v
unfolding crc_bytes
crc_bytes-set [] i v c hc hv p h e = absurd (omega arith)
crc_bytes-set (x ∷ xs) zero v c hc hv p h e = sym (
    bit_xor_injective c v x (
      crc_bits_injective 8 (bit_xor c v) (bit_xor c x) (xor_byte-lt c v hc hv)
        (xor_byte-lt c x hc p.0)
        (crc_bytes_injective xs (absorb c v) (absorb c x) (absorb-lt c v hc hv)
          (absorb-lt c x hc p.0) p.1 e)))
crc_bytes-set (x ∷ xs) (suc i) v c hc hv p h e =
    crc_bytes-set xs i v (absorb c x) (absorb-lt c x hc p.0) hv p.1 (omega arith) e

-- The checksum of bytes fits the 32-bit field that carries it.
pub sv_crc32_ieee-lt : (xs : List ℕ) (n : ℕ) → sv_crc32_ieee xs n < 2 ^ 32
unfolding sv_crc32_ieee
sv_crc32_ieee-lt xs n = omega arith

-- Bytes past the length are not read.
pub sv_crc32_ieee-append :
    (n : ℕ) (xs ys : List ℕ) → length xs ≡ n → sv_crc32_ieee (xs ++ ys) n ≡ sv_crc32_ieee xs n
unfolding sv_crc32_ieee
sv_crc32_ieee-append n xs ys e =
    ap (λ t. 2 ^ 32 - 1 - crc_bytes (2 ^ 32 - 1) t)
      (take-append n xs ys e ∙ sym (take-all xs n (omega arith)))

-- `sv_crc32_ieee` detects any change of one byte: if byte i, among the first n, is overwritten by
-- another byte value, the checksum of the first n bytes changes.
pub sv_crc32_ieee-set_ne :
    (xs : List ℕ) (n i v : ℕ)
    → IsBytes xs
    → v < 256
    → i < n
    → n ≤ length xs
    → byte_at xs i ≢ v
    → sv_crc32_ieee (set xs i v) n ≢ sv_crc32_ieee xs n
unfolding sv_crc32_ieee
sv_crc32_ieee-set_ne xs n i v p hv hi hn ne e = ne (
    sym (get_or-take n xs i 0 hi)
    ∙ crc_bytes-set (take n xs) i v (2 ^ 32 - 1) (omega arith) hv (All-take IsByte n xs p)
        (omega (arith, length-take n xs)) states)
  where
    before : crc_bytes (2 ^ 32 - 1) (take n xs) < 2 ^ 32
    before = crc_bytes-lt (2 ^ 32 - 1) (take n xs) (omega arith) (All-take IsByte n xs p)

    after : crc_bytes (2 ^ 32 - 1) (take n (set xs i v)) < 2 ^ 32
    after =
        crc_bytes-lt (2 ^ 32 - 1) (take n (set xs i v)) (omega arith)
          (All-take IsByte n (set xs i v) (All-set IsByte xs i v p hv))

    states : crc_bytes (2 ^ 32 - 1) (set (take n xs) i v) ≡ crc_bytes (2 ^ 32 - 1) (take n xs)
    states = ap (crc_bytes (2 ^ 32 - 1)) (sym (take-set n xs i v)) ∙ omega (arith, before, after, e)
