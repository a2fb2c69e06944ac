-- ===== src/Text/Json.antt =====
-- What encoding/json keeps of a string: each byte that is no part of UTF-8 becomes U+FFFD.
use familiar_fleet.Base.{
  zero, suc, ◌-◌, ℕ, Bool, true, false, ◌&&◌, ◌||◌, [], ◌∷◌, Text, nat_eq, ◌==◌, ◌!=◌, ltb, leb,
  if◌then◌else◌,
}

abbrev within : ℕ → ℕ → ℕ → Bool
within low high c = leb low c && leb c high

abbrev first_within : ℕ → ℕ → Text → Bool
first_within low high [] = false
first_within low high (c ∷ s) = within low high c

-- so many continuation bytes
abbrev continues : ℕ → Text → Bool
continues zero s = true
continues (suc n) [] = false
continues (suc n) (c ∷ s) = within 0x80 0xBF c && continues n s

-- The length of the encoding of a code point at the head of a text, and 0 where there is none.
unfoldable pub rune_length : ℕ → Text → ℕ
rune_length c s =
    if ltb c 0x80
    then 1
    else if within 0xC2 0xDF c && continues 1 s
    then 2
    else if (within 0xE1 0xEF c && c != 0xED
          || c == 0xE0 && first_within 0xA0 0xBF s
          || c == 0xED && first_within 0x80 0x9F s)
        && continues 2 s
    then 3
    else if (within 0xF1 0xF3 c
          || c == 0xF0 && first_within 0x90 0xBF s
          || c == 0xF4 && first_within 0x80 0x8F s)
        && continues 3 s
    then 4
    else 0

-- `skip` bytes belong to a code point that has begun.
unfoldable pub json_onto : ℕ → Text → Text
json_onto skip [] = []
json_onto (suc skip) (c ∷ s) = c ∷ json_onto skip s
json_onto zero (c ∷ s) =
    let replaced = json_onto 0 s in
    let kept = json_onto (rune_length c s - 1) s in
    if rune_length c s == 0 then 0xEF ∷ 0xBF ∷ 0xBD ∷ replaced else c ∷ kept

-- A string that was encoded and decoded.
unfoldable pub json_text : Text → Text
json_text s = json_onto 0 s
