-- ===== src/Protocol/Id48.antt =====
-- protocol/id48_codec.c: a 48-bit address as six little-endian bytes and as twelve hexadecimal
-- digits. A text is the list of its character codes without the final NUL, so `strlen` is the
-- length; both functions write into the array that they are given.
pub mod Laws
pub mod Canonical
use smol_wi_fi_receiver.Base.{
  ℕ, zero, suc, ◌+◌, ◌-◌, ◌*◌, ◌/◌, ◌%◌, ◌^◌, bit_and, bit_or, List, [], ◌∷◌, Bool, true, false,
  Option, none, some, ◌&&◌, leb, ◌!=◌, if◌then◌else◌, set, length,
}
use smol_wi_fi_receiver.Base.Bytes.{byte_at}

abbrev pub id48_byte_size : ℕ
id48_byte_size = 6

abbrev pub id48_text_size : ℕ
id48_text_size = 13

-- `none` is the return value -1.
unfoldable pub hex_value : ℕ → Option ℕ
hex_value value =
    if leb b'0' value && leb value b'9'
    then some (value - b'0')
    else if leb b'a' value && leb value b'f'
    then some (value - b'a' + 10)
    else if leb b'A' value && leb value b'F'
    then some (value - b'A' + 10)
    else none

-- "0123456789abcdef"
abbrev pub hex : List ℕ
hex =
    b'0' ∷ b'1' ∷ b'2' ∷ b'3' ∷ b'4' ∷ b'5' ∷ b'6' ∷ b'7' ∷ b'8' ∷ b'9' ∷ b'a' ∷ b'b' ∷ b'c' ∷ b'd'
    ∷ b'e' ∷ b'f' ∷ []

-- The loop of `sv_id48_format` at `index`, with the rounds left.
unfoldable pub format_from : ℕ → ℕ → List ℕ → List ℕ → List ℕ
format_from zero index output little_endian = output
format_from (suc left) index output little_endian =
    let value = byte_at little_endian (id48_byte_size - 1 - index) in
    let high = set output (index * 2) (byte_at hex (value / 2 ^ 4)) in
    let low = set high (index * 2 + 1) (byte_at hex (bit_and value 0x0f)) in
    format_from left (index + 1) low little_endian

unfoldable pub sv_id48_format : List ℕ → List ℕ → List ℕ
unfolding format_from
sv_id48_format output little_endian =
    set (format_from id48_byte_size 0 output little_endian) (id48_text_size - 1) 0

-- The loop of `sv_id48_parse`: it stops at the first pair that is no hexadecimal number, and the
-- bytes written before stay written.
unfoldable pub parse_from : ℕ → ℕ → List ℕ → List ℕ → Bool × List ℕ
parse_from zero index little_endian text = (true, little_endian)
parse_from (suc left) index little_endian text = elim (hex_value (byte_at text (index * 2))) [
  | none ↦ (false, little_endian)
  | some high ↦ elim (hex_value (byte_at text (index * 2 + 1))) [
    | none ↦ (false, little_endian)
    | some low ↦
        parse_from left (index + 1)
          (set little_endian (id48_byte_size - 1 - index) (bit_or (high * 2 ^ 4) low % 2 ^ 8)) text
  ]
]

-- The pointers are not NULL: both callers pass arrays of their own.
unfoldable pub sv_id48_parse : List ℕ → List ℕ → Bool × List ℕ
unfolding parse_from
sv_id48_parse little_endian text =
    if length text != id48_text_size - 1
    then (false, little_endian)
    else parse_from id48_byte_size 0 little_endian text
