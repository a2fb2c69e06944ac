-- ===== src/State/Grammar.antt =====
-- The regular expressions of internal/client/state.go, as matchers.
use familiar_fleet.Base.{
  ℕ, zero, suc, Bool, true, false, ◌&&◌, ◌||◌, [], ◌∷◌, Text, codes, nat_eq, ◌==◌, contains,
}
use familiar_fleet.Text.{is_alnum, is_alpha}

abbrev pub is_label_byte : ℕ → Bool
is_label_byte c = is_alnum c || c == b'-'

-- At most `n` label bytes and then an alphanumeric one.
unfoldable pub match_label_end : ℕ → Text → Bool
match_label_end n [] = false
match_label_end n (c ∷ []) = is_alnum c
match_label_end zero (c ∷ d ∷ s) = false
match_label_end (suc n) (c ∷ d ∷ s) = is_label_byte c && match_label_end n (d ∷ s)

-- labelRE and hostPartRE
unfoldable pub match_label : Text → Bool
match_label [] = false
match_label (c ∷ []) = is_alnum c
match_label (c ∷ d ∷ s) = is_alnum c && match_label_end 61 (d ∷ s)

-- At most `n` bytes, each in a class.
unfoldable pub match_most : (ℕ → Bool) → ℕ → Text → Bool
match_most p n [] = true
match_most p zero (c ∷ s) = false
match_most p (suc n) (c ∷ s) = p c && match_most p n s

-- One byte of a class and then at most `n` of another.
unfoldable pub match_head : (ℕ → Bool) → (ℕ → Bool) → ℕ → Text → Bool
match_head first p n [] = false
match_head first p n (c ∷ s) = first c && match_most p n s

-- nodeIDRE
abbrev pub match_node_id : Text → Bool
match_node_id = match_head is_alnum (λ c. is_alnum c || contains (codes "._:-") c) 255

abbrev pub is_user_byte : ℕ → Bool
is_user_byte c = is_alnum c || contains (codes "_.-") c

-- userRE
abbrev pub match_user : Text → Bool
match_user = match_head (λ c. is_alpha c || c == b'_') is_user_byte 63

-- sessionRE
abbrev pub match_session : Text → Bool
match_session = match_head is_alnum (λ c. is_alnum c || contains (codes "._-") c) 127
