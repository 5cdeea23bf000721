-- ===== src/Protocol/Id48/Laws.antt =====
-- The two directions of the address codec undo one another.
use smol_wi_fi_receiver.Base.{
  ℕ, suc, ◌+◌, ◌-◌, ◌*◌, ◌/◌, ◌%◌, ◌<◌, bit_and, bit_or, List, [], ◌∷◌, ◌++◌, Bool, true, false,
  Option, none, some, ◌==◌, ==_iff, set, length, take, ◌≡◌, refl, arith, ap, ◌∙◌, all_below,
  all_below_sound,
}
use smol_wi_fi_receiver.Base.Bits.{bit_and_mask}
use smol_wi_fi_receiver.Base.Bytes.{IsBytes, byte_at}
use smol_wi_fi_receiver.Protocol.Id48.{hex_value, hex, sv_id48_format, sv_id48_parse, parse_from}

-- The text of one byte: its high digit, then its low digit.
abbrev pub digit : ℕ → ℕ
digit d = byte_at hex d

abbrev is_some_of : Option ℕ → ℕ → Bool
is_some_of none d = false
is_some_of (some x) d = x == d

digit_table : all_below (λ d. is_some_of (hex_value (digit d)) d) 16 ≡ true
unfolding all_below hex_value
digit_table = refl

is_some_of_sound : (o : Option ℕ) (d : ℕ) → is_some_of o d ≡ true → o ≡ some d
is_some_of_sound none d h = cc
is_some_of_sound (some x) d h = ap some ((==_iff x d).0 h)

hex_value-digit : (d : ℕ) → d < 16 → hex_value (digit d) ≡ some d
hex_value-digit d h =
    is_some_of_sound (hex_value (digit d)) d (all_below_sound _ 16 d h digit_table)

join_table : all_below (λ b. bit_or (b / 16 * 16) (b % 16) % 256 == b) 256 ≡ true
unfolding all_below
join_table = refl

pub join : (b : ℕ) → b < 256 → bit_or (b / 16 * 16) (b % 16) % 256 ≡ b
join b h = (==_iff _ b).0 (all_below_sound _ 256 b h join_table)

-- The text of a byte reads back as its two halves.
high_half : (b : ℕ) → b < 256 → hex_value (digit (b / 16)) ≡ some (b / 16)
high_half b h = hex_value-digit (b / 16) (omega arith)

low_half : (b : ℕ) → hex_value (digit (bit_and b 15)) ≡ some (b % 16)
low_half b = rw (bit_and_mask 4 b) (hex_value-digit (b % 16) (omega arith))

-- What `sv_id48_format` writes, digit by digit from the most significant byte down.
abbrev pub text_of : List ℕ → List ℕ
text_of [] = []
text_of (b ∷ bytes) = text_of bytes ++ (digit (b / 16) ∷ digit (bit_and b 15) ∷ [])

-- One round of the parser over two digits of a byte.
parse_byte :
    (left index b : ℕ) (out text : List ℕ)
    → b < 256
    → byte_at text (index * 2) ≡ digit (b / 16)
    → byte_at text (index * 2 + 1) ≡ digit (bit_and b 15)
    → parse_from (suc left) index out text
      ≡ parse_from left (index + 1) (set out (5 - index) b) text
unfolding parse_from
parse_byte left index b out text h high low = ground (
  arith,
  ap hex_value high ∙ high_half b h,
  ap hex_value low ∙ low_half b,
  ap (λ v. parse_from left (index + 1) (set out (5 - index) v) text) (join b h),
)

parse-text_of :
    (a b c d e f : ℕ)
    → IsBytes (a ∷ b ∷ c ∷ d ∷ e ∷ f ∷ [])
    → (o p q r s t : ℕ)
    → sv_id48_parse (o ∷ p ∷ q ∷ r ∷ s ∷ t ∷ []) (text_of (a ∷ b ∷ c ∷ d ∷ e ∷ f ∷ []))
      ≡ (true, a ∷ b ∷ c ∷ d ∷ e ∷ f ∷ [])
unfolding sv_id48_parse
parse-text_of a b c d e f (pa, (pb, (pc, (pd, (pe, (pf, _)))))) o p q r s t =
    parse_byte 5 0 f (o ∷ p ∷ q ∷ r ∷ s ∷ t ∷ []) text pf refl refl
    ∙ parse_byte 4 1 e (o ∷ p ∷ q ∷ r ∷ s ∷ f ∷ []) text pe refl refl
    ∙ parse_byte 3 2 d (o ∷ p ∷ q ∷ r ∷ e ∷ f ∷ []) text pd refl refl
    ∙ parse_byte 2 3 c (o ∷ p ∷ q ∷ d ∷ e ∷ f ∷ []) text pc refl refl
    ∙ parse_byte 1 4 b (o ∷ p ∷ c ∷ d ∷ e ∷ f ∷ []) text pb refl refl
    ∙ parse_byte 0 5 a (o ∷ b ∷ c ∷ d ∷ e ∷ f ∷ []) text pa refl refl
  where
    text : List ℕ
    text = text_of (a ∷ b ∷ c ∷ d ∷ e ∷ f ∷ [])

format-text_of :
    (a b c d e f : ℕ) (o0 o1 o2 o3 o4 o5 o6 o7 o8 o9 o10 o11 o12 : ℕ)
    → sv_id48_format
        (o0 ∷ o1 ∷ o2 ∷ o3 ∷ o4 ∷ o5 ∷ o6 ∷ o7 ∷ o8 ∷ o9 ∷ o10 ∷ o11 ∷ o12 ∷ [])
        (a ∷ b ∷ c ∷ d ∷ e ∷ f ∷ [])
      ≡ text_of (a ∷ b ∷ c ∷ d ∷ e ∷ f ∷ []) ++ (0 ∷ [])
unfolding sv_id48_format
format-text_of a b c d e f o0 o1 o2 o3 o4 o5 o6 o7 o8 o9 o10 o11 o12 = refl

-- The formatter fills its 13 bytes with the digits and a NUL.
pub sv_id48_format_lem :
    (output bytes : List ℕ)
    → length output ≡ 13
    → length bytes ≡ 6
    → sv_id48_format output bytes ≡ text_of bytes ++ (0 ∷ [])
sv_id48_format_lem (o0 ∷ o1 ∷ o2 ∷ o3 ∷ o4 ∷ o5 ∷ o6 ∷ o7 ∷ o8 ∷ o9 ∷ o10 ∷ o11 ∷ o12 ∷ [])
      (a ∷ b ∷ c ∷ d ∷ e ∷ f ∷ []) p q =
    format-text_of a b c d e f o0 o1 o2 o3 o4 o5 o6 o7 o8 o9 o10 o11 o12
sv_id48_format_lem _ _ p q = absurd (omega arith)

-- Formatting six bytes into 13 and parsing the 12 digits into any six bytes gives them back.
pub sv_id48_parse-format :
    (output target bytes : List ℕ)
    → length output ≡ 13
    → length target ≡ 6
    → length bytes ≡ 6
    → IsBytes bytes
    → sv_id48_parse target (take 12 (sv_id48_format output bytes)) ≡ (true, bytes)
sv_id48_parse-format output (o ∷ p ∷ q ∷ r ∷ s ∷ t ∷ []) (a ∷ b ∷ c ∷ d ∷ e ∷ f ∷ []) x y z h =
    ap (λ w. sv_id48_parse (o ∷ p ∷ q ∷ r ∷ s ∷ t ∷ []) (take 12 w))
      (sv_id48_format_lem output (a ∷ b ∷ c ∷ d ∷ e ∷ f ∷ []) x refl)
    ∙ parse-text_of a b c d e f h o p q r s t
sv_id48_parse-format output _ _ x y z h = absurd (omega arith)
