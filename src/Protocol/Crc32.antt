-- ===== src/Protocol/Crc32.antt =====
-- `sv_crc32_ieee` of protocol/bridge_protocol.c: the bitwise CRC-32 over a byte buffer.
pub mod Laws
pub mod Field
use smol_wi_fi_receiver.Base.{
  ℕ, zero, suc, ◌-◌, ◌/◌, ◌%◌, ◌^◌, bit_and, bit_xor, List, [], ◌∷◌, take,
}

abbrev pub polynomial : ℕ
polynomial = 0xedb88320

-- One round of the inner loop: `mask` is all ones if the low bit is set, else zero.
unfoldable pub crc_bit : ℕ → ℕ
crc_bit crc =
    let mask = (2 ^ 32 - bit_and crc 1) % 2 ^ 32 in bit_xor (crc / 2) (bit_and polynomial mask)

-- The inner loop, with the rounds left.
unfoldable pub crc_bits : ℕ → ℕ → ℕ
unfolding crc_bit
crc_bits zero crc = crc
crc_bits (suc left) crc = crc_bits left (crc_bit crc)

-- The outer loop, over the bytes left.
unfoldable pub crc_bytes : ℕ → List ℕ → ℕ
unfolding crc_bits
crc_bytes crc [] = crc
crc_bytes crc (byte ∷ rest) = crc_bytes (crc_bits 8 (bit_xor crc byte)) rest

-- `~crc` of a `uint32_t` is its distance from `UINT32_MAX`.
unfoldable pub sv_crc32_ieee : List ℕ → ℕ → ℕ
unfolding crc_bytes
sv_crc32_ieee bytes length = 2 ^ 32 - 1 - crc_bytes (2 ^ 32 - 1) (take length bytes)
