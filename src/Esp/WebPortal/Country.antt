-- ===== src/Esp/WebPortal/Country.antt =====
-- `supported_country` of web_portal.c.
use smol_wi_fi_receiver.Base.{ℕ, List, [], ◌∷◌, Bool, true, false, ◌&&◌, ◌||◌, ◌==◌, ◌≡◌, refl, ap₂}
use smol_wi_fi_receiver.Base.Bytes.{byte_at}

-- `codes`
abbrev pub codes : List ℕ
codes =
    b'|' ∷ b'0' ∷ b'1' ∷ b'|' ∷ b'A' ∷ b'T' ∷ b'|' ∷ b'A' ∷ b'U' ∷ b'|' ∷ b'B' ∷ b'E' ∷ b'|' ∷ b'B'
    ∷ b'G' ∷ b'|' ∷ b'B' ∷ b'R' ∷ b'|' ∷ b'C' ∷ b'A' ∷ b'|' ∷ b'C' ∷ b'H' ∷ b'|' ∷ b'C' ∷ b'N'
    ∷ b'|' ∷ b'C' ∷ b'Y' ∷ b'|' ∷ b'C' ∷ b'Z' ∷ b'|' ∷ b'D' ∷ b'E' ∷ b'|' ∷ b'D' ∷ b'K' ∷ b'|'
    ∷ b'E' ∷ b'E' ∷ b'|' ∷ b'E' ∷ b'S' ∷ b'|' ∷ b'F' ∷ b'I' ∷ b'|' ∷ b'F' ∷ b'R' ∷ b'|' ∷ b'G'
    ∷ b'B' ∷ b'|' ∷ b'G' ∷ b'R' ∷ b'|' ∷ b'H' ∷ b'K' ∷ b'|' ∷ b'H' ∷ b'R' ∷ b'|' ∷ b'H' ∷ b'U'
    ∷ b'|' ∷ b'I' ∷ b'E' ∷ b'|' ∷ b'I' ∷ b'N' ∷ b'|' ∷ b'I' ∷ b'S' ∷ b'|' ∷ b'I' ∷ b'T' ∷ b'|'
    ∷ b'J' ∷ b'P' ∷ b'|' ∷ b'K' ∷ b'R' ∷ b'|' ∷ b'L' ∷ b'I' ∷ b'|' ∷ b'L' ∷ b'T' ∷ b'|' ∷ b'L'
    ∷ b'U' ∷ b'|' ∷ b'L' ∷ b'V' ∷ b'|' ∷ b'M' ∷ b'T' ∷ b'|' ∷ b'M' ∷ b'X' ∷ b'|' ∷ b'N' ∷ b'L'
    ∷ b'|' ∷ b'N' ∷ b'O' ∷ b'|' ∷ b'N' ∷ b'Z' ∷ b'|' ∷ b'P' ∷ b'L' ∷ b'|' ∷ b'P' ∷ b'T' ∷ b'|'
    ∷ b'R' ∷ b'O' ∷ b'|' ∷ b'S' ∷ b'E' ∷ b'|' ∷ b'S' ∷ b'I' ∷ b'|' ∷ b'S' ∷ b'K' ∷ b'|' ∷ b'T'
    ∷ b'W' ∷ b'|' ∷ b'U' ∷ b'S' ∷ b'|' ∷ []

unfoldable pub starts_with : List ℕ → List ℕ → Bool
starts_with [] text = true
starts_with (c ∷ needle) [] = false
starts_with (c ∷ needle) (d ∷ text) = c == d && starts_with needle text

-- Whether `strstr` finds the needle.
unfoldable pub strstr_finds : List ℕ → List ℕ → Bool
unfolding starts_with
strstr_finds [] needle = starts_with needle []
strstr_finds (c ∷ text) needle = starts_with needle (c ∷ text) || strstr_finds text needle

unfoldable pub supported_country : List ℕ → Bool
unfolding strstr_finds
supported_country country =
    strstr_finds codes (b'|' ∷ byte_at country 0 ∷ byte_at country 1 ∷ b'|' ∷ [])

-- The codes, two bytes each.
abbrev pub countries : List (ℕ × ℕ)
countries =
    (b'0', b'1')
    ∷ (b'A', b'T')
    ∷ (b'A', b'U')
    ∷ (b'B', b'E')
    ∷ (b'B', b'G')
    ∷ (b'B', b'R')
    ∷ (b'C', b'A')
    ∷ (b'C', b'H')
    ∷ (b'C', b'N')
    ∷ (b'C', b'Y')
    ∷ (b'C', b'Z')
    ∷ (b'D', b'E')
    ∷ (b'D', b'K')
    ∷ (b'E', b'E')
    ∷ (b'E', b'S')
    ∷ (b'F', b'I')
    ∷ (b'F', b'R')
    ∷ (b'G', b'B')
    ∷ (b'G', b'R')
    ∷ (b'H', b'K')
    ∷ (b'H', b'R')
    ∷ (b'H', b'U')
    ∷ (b'I', b'E')
    ∷ (b'I', b'N')
    ∷ (b'I', b'S')
    ∷ (b'I', b'T')
    ∷ (b'J', b'P')
    ∷ (b'K', b'R')
    ∷ (b'L', b'I')
    ∷ (b'L', b'T')
    ∷ (b'L', b'U')
    ∷ (b'L', b'V')
    ∷ (b'M', b'T')
    ∷ (b'M', b'X')
    ∷ (b'N', b'L')
    ∷ (b'N', b'O')
    ∷ (b'N', b'Z')
    ∷ (b'P', b'L')
    ∷ (b'P', b'T')
    ∷ (b'R', b'O')
    ∷ (b'S', b'E')
    ∷ (b'S', b'I')
    ∷ (b'S', b'K')
    ∷ (b'T', b'W')
    ∷ (b'U', b'S')
    ∷ []

abbrev pub is_among : ℕ → ℕ → List (ℕ × ℕ) → Bool
is_among first second [] = false
is_among first second ((c, d) ∷ rest) = (first == c && second == d) || is_among first second rest

-- The comparisons that the search makes.
abbrev compared : ℕ → ℕ → List (ℕ × ℕ) → Bool
compared first second [] = false
compared first second ((c, d) ∷ rest) =
    (first == c && (second == d && true)) || compared first second rest

and_true : (a b : Bool) → (a && (b && true)) ≡ (a && b)
and_true true true = refl
and_true true false = refl
and_true false b = refl

compared-is_among :
    (first second : ℕ) (list : List (ℕ × ℕ))
    → compared first second list ≡ is_among first second list
compared-is_among first second [] = refl
compared-is_among first second ((c, d) ∷ rest) =
    ap₂ ◌||◌ (and_true (first == c) (second == d)) (compared-is_among first second rest)

-- The search finds exactly the listed codes.
pub supported_country-is_among :
    (first second : ℕ) → supported_country (first ∷ second ∷ []) ≡ is_among first second countries
unfolding supported_country
supported_country-is_among first second = compared-is_among first second countries
