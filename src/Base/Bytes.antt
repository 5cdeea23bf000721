-- ===== src/Base/Bytes.antt =====
-- C byte buffers as lists of numbers, and the little-endian accessors that bridge_protocol.c
-- and gateway_protocol.c each declare.
use Prim.Native.Nat.{ℕ, zero, suc, ◌+◌, ◌-◌, ◌*◌, ◌/◌, ◌%◌, ◌^◌, ◌≤◌, ◌<◌, bit_or}
use mathlib.Core.Path.{◌≡◌, refl, sym, ap, ◌∙◌}
use mathlib.Core.Logic.{◌⊎◌}
use mathlib.Core.Bool.{Bool, true, false, ◌&&◌}
use mathlib.Core.List.{List, [], ◌∷◌, ◌++◌, append_assoc}
use native.Mathlib.Omega.{arith}
use smol_wi_fi_receiver.Base.Tests.{◌==◌}
use smol_wi_fi_receiver.Base.Lists.{
  get_or, set, take, All, length, replicate, length-append, length-replicate, All-append,
  All-replicate,
}
use smol_wi_fi_receiver.Base.Bits.{bit_or_fields}

abbrev pub IsByte : ℕ → Type 0
IsByte b = b < 256

abbrev pub IsBytes : List ℕ → Type 0
IsBytes = All IsByte

-- `data[i]`; the theorems read inside the buffers only.
abbrev pub byte_at : List ℕ → ℕ → ℕ
byte_at bytes i = get_or bytes i 0

-- `memcpy(&dst[off], src, length src)`; bytes past the end of `dst` are dropped.
abbrev pub copy_at : List ℕ → ℕ → List ℕ → List ℕ
copy_at [] off src = []
copy_at (d ∷ dst) zero [] = d ∷ dst
copy_at (d ∷ dst) zero (s ∷ src) = s ∷ copy_at dst zero src
copy_at (d ∷ dst) (suc off) src = d ∷ copy_at dst off src

-- `memcmp(xs, ys, n) == 0` for two buffers of n bytes.
abbrev pub same_bytes : List ℕ → List ℕ → Bool
same_bytes [] [] = true
same_bytes [] (y ∷ ys) = false
same_bytes (x ∷ xs) [] = false
same_bytes (x ∷ xs) (y ∷ ys) = x == y && same_bytes xs ys

unfoldable pub read_le16 : List ℕ → ℕ
read_le16 bytes = bit_or (byte_at bytes 0) (byte_at bytes 1 * 2 ^ 8) % 2 ^ 16

unfoldable pub read_le32 : List ℕ → ℕ
read_le32 bytes =
    bit_or
      (bit_or (bit_or (byte_at bytes 0) (byte_at bytes 1 * 2 ^ 8 % 2 ^ 32))
        (byte_at bytes 2 * 2 ^ 16 % 2 ^ 32))
      (byte_at bytes 3 * 2 ^ 24 % 2 ^ 32)

-- `write_le16(&bytes[off], value)`
unfoldable pub write_le16 : List ℕ → ℕ → ℕ → List ℕ
write_le16 bytes off value = set (set bytes off (value % 2 ^ 8)) (off + 1) (value / 2 ^ 8 % 2 ^ 8)

unfoldable pub write_le32 : List ℕ → ℕ → ℕ → List ℕ
write_le32 bytes off value =
    let b0 = set bytes off (value % 2 ^ 8) in
    let b1 = set b0 (off + 1) (value / 2 ^ 8 % 2 ^ 8) in
    let b2 = set b1 (off + 2) (value / 2 ^ 16 % 2 ^ 8) in set b2 (off + 3) (value / 2 ^ 24 % 2 ^ 8)

-- `bytes` followed by zeros, up to `n` bytes.
abbrev pub pad : ℕ → List ℕ → List ℕ
pad n bytes = bytes ++ replicate (n - length bytes) 0

-- The bytes that the writers store.
abbrev pub le16 : ℕ → List ℕ
le16 v = (v % 256) ∷ (v / 256 % 256) ∷ []

abbrev pub le32 : ℕ → List ℕ
le32 v = (v % 256) ∷ (v / 256 % 256) ∷ (v / 65536 % 256) ∷ (v / 16777216 % 256) ∷ []

-- The readers are sums of weighted bytes.
pub read_le16_sum :
    (a b : ℕ) (rest : List ℕ) → a < 256 → b < 256 → read_le16 (a ∷ b ∷ rest) ≡ a + b * 256
unfolding read_le16
read_le16_sum a b rest p q = omega (arith, bit_or_fields 8 b a p)

pub read_le32_sum :
    (a b c d : ℕ) (rest : List ℕ)
    → a < 256
    → b < 256
    → c < 256
    → d < 256
    → read_le32 (a ∷ b ∷ c ∷ d ∷ rest) ≡ a + b * 256 + c * 65536 + d * 16777216
unfolding read_le32
read_le32_sum a b c d rest p q r s =
    let low : b * 2 ^ 8 % 2 ^ 32 ≡ b * 2 ^ 8 = omega arith in
    let mid : c * 2 ^ 16 % 2 ^ 32 ≡ c * 2 ^ 16 = omega arith in
    let high : d * 2 ^ 24 % 2 ^ 32 ≡ d * 2 ^ 24 = omega arith in
    rw (low, mid, high, bit_or_fields 8 b a (omega arith))
      (rw (bit_or_fields 16 c (b * 2 ^ 8 + a) (omega arith))
        (rw (bit_or_fields 24 d (c * 2 ^ 16 + (b * 2 ^ 8 + a)) (omega arith)) (omega arith)))

pub read_le16-le16 : (v : ℕ) (rest : List ℕ) → v < 2 ^ 16 → read_le16 (le16 v ++ rest) ≡ v
read_le16-le16 v rest h =
    omega (arith, read_le16_sum (v % 256) (v / 256 % 256) rest (omega arith) (omega arith))

pub read_le32-le32 : (v : ℕ) (rest : List ℕ) → v < 2 ^ 32 → read_le32 (le32 v ++ rest) ≡ v
read_le32-le32 v rest h = omega (
  arith,
  read_le32_sum (v % 256) (v / 256 % 256) (v / 65536 % 256) (v / 16777216 % 256) rest (omega arith)
      (omega arith) (omega arith) (omega arith),
)

-- Copying to the start of a zeroed buffer pads with zeros.
pub copy_at-zeros :
    (n : ℕ) (src : List ℕ) → length src ≤ n → copy_at (replicate n 0) 0 src ≡ pad n src
copy_at-zeros zero [] h = refl
copy_at-zeros zero (s ∷ src) h = absurd (omega arith)
copy_at-zeros (suc n) [] h = ap (λ k. replicate k 0) {x = suc n} {y = suc n - 0} (omega arith)
copy_at-zeros (suc n) (s ∷ src) h =
    ap (◌∷◌ s) (copy_at-zeros n src (omega arith) ∙ ap (λ k. src ++ replicate k 0) (omega arith))

-- A copy to the start is read back.
pub take-copy_at :
    (dst src : List ℕ) (n : ℕ) → length src ≡ n → n ≤ length dst → take n (copy_at dst 0 src) ≡ src
take-copy_at dst [] zero e fits = refl
take-copy_at dst [] (suc n) e fits = absurd (omega arith)
take-copy_at dst (s ∷ src) zero e fits = absurd (omega arith)
take-copy_at [] (s ∷ src) (suc n) e fits = absurd (omega arith)
take-copy_at (d ∷ dst) (s ∷ src) (suc n) e fits =
    ap (◌∷◌ s) (take-copy_at dst src n (omega arith) (omega arith))

pub length-pad : (n : ℕ) (src : List ℕ) → length src ≤ n → length (pad n src) ≡ n
length-pad n src h = omega (
  arith,
  length-append src (replicate (n - length src) 0),
  length-replicate {A = ℕ} (n - length src) 0,
)

pub pad-IsBytes : (n : ℕ) (src : List ℕ) → IsBytes src → IsBytes (pad n src)
pad-IsBytes n src h =
    All-append IsByte src (replicate (n - length src) 0) h
      (All-replicate IsByte (n - length src) 0 (omega arith))

-- A longer buffer only has more zeros behind.
pub pad-append :
    (n k : ℕ) (src : List ℕ) → length src ≤ n → pad (n + k) src ≡ pad n src ++ replicate k 0
pad-append n k src h =
    ap (λ t. src ++ replicate t 0) {y = n - length src + k} (omega arith)
    ∙ ap (◌++◌ src) (replicate_add (n - length src) k)
    ∙ sym (append_assoc src (replicate (n - length src) 0) (replicate k 0))
  where
    replicate_add : (a b : ℕ) → replicate {A = ℕ} (a + b) 0 ≡ replicate a 0 ++ replicate b 0
    replicate_add zero b = ap (λ t. replicate t 0) (omega arith)
    replicate_add (suc a) b =
        ap (λ t. replicate t 0) {y = suc (a + b)} (omega arith) ∙ ap (◌∷◌ 0) (replicate_add a b)

-- `write_le32` over the last four bytes of a buffer.
pub write_le32-append :
    (xs : List ℕ) (a b c d v n : ℕ)
    → length xs ≡ n
    → write_le32 (xs ++ a ∷ b ∷ c ∷ d ∷ []) n v ≡ xs ++ le32 v
unfolding write_le32
write_le32-append [] a b c d v zero e = refl
write_le32-append [] a b c d v (suc n) e = absurd (omega arith)
write_le32-append (x ∷ xs) a b c d v zero e = absurd (omega arith)
write_le32-append (x ∷ xs) a b c d v (suc n) e =
    rw (suc_add n 1, suc_add n 2, suc_add n 3)
      (ap (◌∷◌ x) (write_le32-append xs a b c d v n (omega arith)))
  where
    suc_add : (n k : ℕ) → suc n + k ≡ suc (n + k)
    suc_add n k = omega arith

pub le32-IsBytes : (v : ℕ) → IsBytes (le32 v)
le32-IsBytes v = omega arith

-- `memcpy(dst, &value, 6)` from a little-endian `uint64_t`, and back into a zeroed one.
abbrev pub le48 : ℕ → List ℕ
le48 v =
    (v % 256)
    ∷ (v / 256 % 256)
    ∷ (v / 65536 % 256)
    ∷ (v / 16777216 % 256)
    ∷ (v / 4294967296 % 256)
    ∷ (v / 1099511627776 % 256)
    ∷ []

abbrev pub read_le48 : List ℕ → ℕ
read_le48 bytes =
    byte_at bytes 0
    + byte_at bytes 1 * 256
    + byte_at bytes 2 * 65536
    + byte_at bytes 3 * 16777216
    + byte_at bytes 4 * 4294967296
    + byte_at bytes 5 * 1099511627776

-- Reading where a copy wrote, and beside it.
pub length-copy_at :
    (dst : List ℕ) (off : ℕ) (src : List ℕ) → length (copy_at dst off src) ≡ length dst
length-copy_at [] off src = refl
length-copy_at (d ∷ dst) zero [] = refl
length-copy_at (d ∷ dst) zero (s ∷ src) = ap suc (length-copy_at dst zero src)
length-copy_at (d ∷ dst) (suc off) src = ap suc (length-copy_at dst off src)

pub byte_at-copy_at_inside :
    (dst : List ℕ) (off : ℕ) (src : List ℕ) (i j : ℕ)
    → i ≡ off + j
    → j < length src
    → i < length dst
    → byte_at (copy_at dst off src) i ≡ byte_at src j
byte_at-copy_at_inside [] off src i j e h k = absurd (omega arith)
byte_at-copy_at_inside (d ∷ dst) zero [] i j e h k = absurd (omega arith)
byte_at-copy_at_inside (d ∷ dst) zero (s ∷ src) zero zero e h k = refl
byte_at-copy_at_inside (d ∷ dst) zero (s ∷ src) zero (suc j) e h k = absurd (omega arith)
byte_at-copy_at_inside (d ∷ dst) zero (s ∷ src) (suc i) zero e h k = absurd (omega arith)
byte_at-copy_at_inside (d ∷ dst) zero (s ∷ src) (suc i) (suc j) e h k =
    byte_at-copy_at_inside dst zero src i j (omega arith) (omega arith) (omega arith)
byte_at-copy_at_inside (d ∷ dst) (suc off) src zero j e h k = absurd (omega arith)
byte_at-copy_at_inside (d ∷ dst) (suc off) src (suc i) j e h k =
    byte_at-copy_at_inside dst off src i j (omega arith) h (omega arith)

pub byte_at-copy_at_outside :
    (dst : List ℕ) (off : ℕ) (src : List ℕ) (i : ℕ)
    → (i < off) ⊎ (off + length src ≤ i)
    → byte_at (copy_at dst off src) i ≡ byte_at dst i
byte_at-copy_at_outside [] off src i h = refl
byte_at-copy_at_outside (d ∷ dst) zero [] i h = refl
byte_at-copy_at_outside (d ∷ dst) zero (s ∷ src) zero h = absurd (omega arith)
byte_at-copy_at_outside (d ∷ dst) zero (s ∷ src) (suc i) h =
    byte_at-copy_at_outside dst zero src i (omega arith)
byte_at-copy_at_outside (d ∷ dst) (suc off) src zero h = refl
byte_at-copy_at_outside (d ∷ dst) (suc off) src (suc i) h =
    byte_at-copy_at_outside dst off src i (omega arith)
