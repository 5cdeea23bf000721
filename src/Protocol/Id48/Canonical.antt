-- ===== src/Protocol/Id48/Canonical.antt =====
-- What the parser accepts, and that formatting it again is lower case of the text.
use smol_wi_fi_receiver.Base.{
  ℕ, suc, ◌+◌, ◌-◌, ◌*◌, ◌/◌, ◌%◌, ◌<◌, bit_and, bit_or, List, [], ◌∷◌, ◌++◌, Bool, true, Option,
  none, some, ◌&&◌, leb, ltb, ◌==◌, ==_iff, if◌then◌else◌, set, length, ◌≡◌, refl, arith, ap, ap₂,
  subst, ◌∙◌, sym, all_below, all_below_sound, some-injective,
}
use smol_wi_fi_receiver.Base.Bits.{bit_and_mask}
use smol_wi_fi_receiver.Base.Bytes.{IsByte, IsBytes, byte_at}
use smol_wi_fi_receiver.Protocol.Id48.{hex_value, sv_id48_format, sv_id48_parse, parse_from}
use smol_wi_fi_receiver.Protocol.Id48.Laws.{sv_id48_format_lem, digit, text_of, join}

-- `tolower` on the hexadecimal letters.
abbrev pub lower : ℕ → ℕ
lower c = if leb b'A' c && leb c b'F' then c + 32 else c

abbrev pub lower_text : List ℕ → List ℕ
lower_text [] = []
lower_text (c ∷ text) = lower c ∷ lower_text text

abbrev agrees : ℕ → Option ℕ → Bool
agrees c none = true
agrees c (some d) = ltb d 16 && digit d == lower c

agrees_table : all_below (λ c. agrees c (hex_value c)) 128 ≡ true
unfolding all_below hex_value
agrees_table = refl

hex_value-lt : (c d : ℕ) → hex_value c ≡ some d → c < 128
unfolding hex_value
hex_value-lt c d h = ground arith

agrees_sound :
    (c d : ℕ) (o : Option ℕ) → agrees c o ≡ true → o ≡ some d → (d < 16) × (digit d ≡ lower c)
agrees_sound c d none h e = cc
agrees_sound c d (some x) h e = ground (arith, some-injective e, ==_iff (digit x) (lower c))

-- A digit's value is below 16 and prints as the digit in lower case.
hex_value-lower : (c d : ℕ) → hex_value c ≡ some d → (d < 16) × (digit d ≡ lower c)
hex_value-lower c d e =
    agrees_sound c d (hex_value c) (all_below_sound _ 128 c (hex_value-lt c d e) agrees_table) e

-- A round that does not fail has read two digits.
parse_round :
    (left index : ℕ) (out text r : List ℕ)
    → parse_from (suc left) index out text ≡ (true, r)
    → (high low : ℕ) × (hex_value (byte_at text (index * 2)) ≡ some high)
      × (hex_value (byte_at text (index * 2 + 1)) ≡ some low)
      × (parse_from left (index + 1) (set out (5 - index) (bit_or (high * 16) low % 256)) text
          ≡ (true, r))
unfolding parse_from
parse_round left index out text r h = ground arith

-- The byte that a round stores, as its text.
abbrev joined : ℕ → ℕ → ℕ
joined high low = bit_or (high * 16) low % 256

joined_sum : (high low : ℕ) → high < 16 → low < 16 → joined high low ≡ high * 16 + low
joined_sum high low p q =
    ap₂ (λ x y. bit_or (x * 16) y % 256) {x = high} {y = (high * 16 + low) / 16} {u = low}
      {v = (high * 16 + low) % 16} (omega arith) (omega arith)
    ∙ join (high * 16 + low) (omega arith)

IsByte-text :
    (x y high low : ℕ)
    → hex_value x ≡ some high
    → hex_value y ≡ some low
    → IsByte (joined high low)
      × (digit (joined high low / 16) ≡ lower x)
      × (digit (bit_and (joined high low) 15) ≡ lower y)
IsByte-text x y high low p q = (
  omega arith,
  ap digit {x = joined high low / 16} {y = high} (omega (arith, sum, top.0, bottom.0)) ∙ top.1,
  ap digit (bit_and_mask 4 (joined high low))
      ∙ ap digit {x = joined high low % 16} {y = low} (omega (arith, sum, top.0, bottom.0))
      ∙ bottom.1,
)
  where
    top : (high < 16) × (digit high ≡ lower x)
    top = hex_value-lower x high p

    bottom : (low < 16) × (digit low ≡ lower y)
    bottom = hex_value-lower y low q

    sum : joined high low ≡ high * 16 + low
    sum = joined_sum high low top.0 bottom.0

parse_end : (index : ℕ) (out text r : List ℕ) → parse_from 0 index out text ≡ (true, r) → out ≡ r
unfolding parse_from
parse_end index out text r h = ap (λ w. w.1) h

-- A byte whose text is two characters in lower case.
abbrev ByteOf : ℕ → ℕ → ℕ → Type 0
ByteOf x y b = IsByte b × (digit (b / 16) ≡ lower x) × (digit (bit_and b 15) ≡ lower y)

-- A parse that succeeds goes on with the byte that the next two characters denote.
parse_next :
    {G : Type 0} (left index x y : ℕ) (out text r : List ℕ)
    → byte_at text (index * 2) ≡ x
    → byte_at text (index * 2 + 1) ≡ y
    → parse_from (suc left) index out text ≡ (true, r)
    → ((b : ℕ)
        → ByteOf x y b
        → parse_from left (index + 1) (set out (5 - index) b) text ≡ (true, r)
        → G)
    → G
parse_next left index x y out text r ex ey h go =
    let (high, low, p, q, rest) = parse_round left index out text r h in
    go (joined high low)
      (IsByte-text x y high low (ap hex_value (sym ex) ∙ p) (ap hex_value (sym ey) ∙ q)) rest

-- A text of twelve digits and the six bytes that it parses to.
abbrev ParsesTo : List ℕ → List ℕ → Type 0
ParsesTo text bytes = (length bytes ≡ 6) × IsBytes bytes × (text_of bytes ≡ lower_text text)

parsed :
    (o p q r s t : ℕ) (c0 c1 c2 c3 c4 c5 c6 c7 c8 c9 c10 c11 : ℕ) (bytes : List ℕ)
    → let text = c0 ∷ c1 ∷ c2 ∷ c3 ∷ c4 ∷ c5 ∷ c6 ∷ c7 ∷ c8 ∷ c9 ∷ c10 ∷ c11 ∷ [] in
      parse_from 6 0 (o ∷ p ∷ q ∷ r ∷ s ∷ t ∷ []) text ≡ (true, bytes) → ParsesTo text bytes
parsed o p q r s t c0 c1 c2 c3 c4 c5 c6 c7 c8 c9 c10 c11 bytes h =
    parse_next 5 0 c0 c1 (o ∷ p ∷ q ∷ r ∷ s ∷ t ∷ []) text bytes refl refl h λ a ta ha.
      parse_next 4 1 c2 c3 (o ∷ p ∷ q ∷ r ∷ s ∷ a ∷ []) text bytes refl refl ha λ b tb hb.
        parse_next 3 2 c4 c5 (o ∷ p ∷ q ∷ r ∷ b ∷ a ∷ []) text bytes refl refl hb λ c tc hc.
          parse_next 2 3 c6 c7 (o ∷ p ∷ q ∷ c ∷ b ∷ a ∷ []) text bytes refl refl hc λ d td hd.
            parse_next 1 4 c8 c9 (o ∷ p ∷ d ∷ c ∷ b ∷ a ∷ []) text bytes refl refl hd λ e te he.
              parse_next 0 5 c10 c11 (o ∷ e ∷ d ∷ c ∷ b ∷ a ∷ []) text bytes refl refl he λ f tf hf.
                subst (ParsesTo text) (parse_end 6 (f ∷ e ∷ d ∷ c ∷ b ∷ a ∷ []) text bytes hf) (
                  refl,
                  (tf.0, (te.0, (td.0, (tc.0, (tb.0, (ta.0, tt)))))),
                  λ i.
                      ta.1 i
                      ∷ ta.2 i
                      ∷ tb.1 i
                      ∷ tb.2 i
                      ∷ tc.1 i
                      ∷ tc.2 i
                      ∷ td.1 i
                      ∷ td.2 i
                      ∷ te.1 i
                      ∷ te.2 i
                      ∷ tf.1 i
                      ∷ tf.2 i
                      ∷ [],
                )
  where
    text : List ℕ
    text = c0 ∷ c1 ∷ c2 ∷ c3 ∷ c4 ∷ c5 ∷ c6 ∷ c7 ∷ c8 ∷ c9 ∷ c10 ∷ c11 ∷ []

-- If the parser accepts a text, the result is six bytes, and formatting them gives the text in
-- lower case, followed by NUL.
pub sv_id48_format-parse :
    (output target text bytes : List ℕ)
    → length output ≡ 13
    → length target ≡ 6
    → sv_id48_parse target text ≡ (true, bytes)
    → (length bytes ≡ 6)
      × IsBytes bytes
      × (sv_id48_format output bytes ≡ lower_text text ++ (0 ∷ []))
sv_id48_format-parse output target text bytes size six h =
    let found = parsed_lem target text bytes six (twelve target text bytes h) h in
    (
      found.0,
      found.1,
      sv_id48_format_lem output bytes size found.0 ∙ ap (λ w. w ++ (0 ∷ [])) found.2,
    )
  where
    twelve :
        (target text bytes : List ℕ) → sv_id48_parse target text ≡ (true, bytes) → length text ≡ 12
    twelve target text bytes h = unfold sv_id48_parse in ground arith

    parsed_lem :
        (target text bytes : List ℕ)
        → length target ≡ 6
        → length text ≡ 12
        → sv_id48_parse target text ≡ (true, bytes)
        → ParsesTo text bytes
    parsed_lem (o ∷ p ∷ q ∷ r ∷ s ∷ t ∷ [])
          (c0 ∷ c1 ∷ c2 ∷ c3 ∷ c4 ∷ c5 ∷ c6 ∷ c7 ∷ c8 ∷ c9 ∷ c10 ∷ c11 ∷ []) bytes x y h =
        parsed o p q r s t c0 c1 c2 c3 c4 c5 c6 c7 c8 c9 c10 c11 bytes (unfold sv_id48_parse in h)
    parsed_lem _ _ bytes x y h = absurd (omega arith)
