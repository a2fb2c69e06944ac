-- ===== src/State/PublicKey.antt =====
-- `validatePublicKey` and `NormalizePublicKey` of internal/client/state.go, with the part of
-- encoding/base64 that they use.
use familiar_fleet.Base.{
  ◌^◌, ℕ, ◌+◌, ◌-◌, ◌*◌, ◌/◌, ◌%◌, ◌&&◌, ◌||◌, Option, none, some, List, [], ◌∷◌, ◌++◌, Text, codes,
  nat_eq, text_eq, ◌==◌, ◌!=◌, leb, length, drop, take, if◌then◌else◌, ◌⊎◌, inl, inr,
}
use familiar_fleet.Text.{contains_any, fields, trim_space}

pub data KeyError : Type 0 where
  not_one_key : KeyError
  contains_newline : KeyError
  invalid_encoding : KeyError
  blob_mismatch : KeyError

-- The six bits of a character of the standard alphabet.
abbrev pub sextet : ℕ → Option ℕ
sextet c =
    if leb b'A' c && leb c b'Z'
    then some (c - b'A')
    else if leb b'a' c && leb c b'z'
    then some (c - b'a' + 26)
    else if leb b'0' c && leb c b'9'
    then some (c - b'0' + 52)
    else if c == b'+'
    then some 62
    else if c == b'/'
    then some 63
    else none

-- The sextets of a text, or `none` where a character has none.
unfoldable sextets : Text → Option (List ℕ)
sextets [] = some []
sextets (c ∷ s) =
    let rest = sextets s in
    elim (sextet c) [ none ↦ none | some x ↦ elim rest [ none ↦ none | some xs ↦ some (x ∷ xs) ] ]

-- The bytes of four, three or two sextets; the bits that are left over are dropped.
abbrev bytes_of : Option (List ℕ) → Option Text
bytes_of (some (a ∷ b ∷ [])) = some ((a * 4 + b / 16) ∷ [])
bytes_of (some (a ∷ b ∷ c ∷ [])) = some ((a * 4 + b / 16) ∷ (b % 16 * 16 + c / 4) ∷ [])
bytes_of (some (a ∷ b ∷ c ∷ d ∷ [])) =
    some ((a * 4 + b / 16) ∷ (b % 16 * 16 + c / 4) ∷ (c % 4 * 64 + d) ∷ [])
bytes_of _ = none

unfoldable group : Text → Option Text
unfolding sextets
group s = bytes_of (sextets s)

-- The last four characters, where padding may stand.
abbrev last_group : ℕ → ℕ → ℕ → ℕ → Option Text
last_group a b c d =
    if d != b'='
    then group (a ∷ b ∷ c ∷ d ∷ [])
    else if c != b'='
    then group (a ∷ b ∷ c ∷ [])
    else group (a ∷ b ∷ [])

abbrev append_bytes : Option Text → Option Text → Option Text
append_bytes (some xs) (some ys) = some (xs ++ ys)
append_bytes _ _ = none

-- base64.StdEncoding.DecodeString of a text without line ends
unfoldable pub decode_base64 : Text → Option Text
unfolding group
decode_base64 [] = some []
decode_base64 (a ∷ b ∷ c ∷ d ∷ []) = last_group a b c d
decode_base64 (a ∷ b ∷ c ∷ d ∷ e ∷ s) =
    append_bytes (group (a ∷ b ∷ c ∷ d ∷ [])) (decode_base64 (e ∷ s))
decode_base64 _ = none

abbrev big_endian : Text → ℕ
big_endian (a ∷ b ∷ c ∷ d ∷ _) = a * 2 ^ 24 + b * 2 ^ 16 + c * 2 ^ 8 + d
big_endian _ = 0

abbrev pub key_type : Text
key_type = codes "ssh-ed25519"

abbrev blob_error : Option Text → Option KeyError
blob_error none = some invalid_encoding
blob_error (some blob) =
    if length blob != 51
    then some invalid_encoding
    else if big_endian blob != 11
        || take 11 (drop 4 blob) != key_type
        || big_endian (drop 15 blob) != 32
    then some blob_mismatch
    else none

-- the fields of the key, with the text that they are the fields of
abbrev key_error : Text → List Text → Option KeyError
key_error s (kind ∷ blob ∷ more) =
    if leb 2 (length more) || kind != key_type
    then some not_one_key
    else if contains_any s (13 ∷ 10 ∷ [])
    then some contains_newline
    else blob_error (decode_base64 blob)
key_error s _ = some not_one_key

-- validatePublicKey: the error, if there is one
unfoldable pub validate_public_key : Text → Option KeyError
validate_public_key s = key_error s (fields s)

abbrev first_two : List Text → Text
first_two (kind ∷ blob ∷ _) = kind ++ b' ' ∷ blob
first_two _ = []

abbrev normal_form : Text → Option KeyError → KeyError ⊎ Text
normal_form s (some e) = inl e
normal_form s none = inr (first_two (fields s))

-- NormalizePublicKey
unfoldable pub normalize_public_key : Text → KeyError ⊎ Text
normalize_public_key raw = let s = trim_space raw in normal_form s (validate_public_key s)
