-- ===== src/OAuth/Tokens.antt =====
-- What holds of a token that `Connect` goes on with.
use familiar_fleet.Base.{
  ◌≡◌, ◌≢◌, inl, inr, Option, none, some, List, [], ◌∷◌, Text, text_eq, eq_iff, refl, arith,
  Option-cases,
}
use familiar_fleet.Text.{split}
use familiar_fleet.OAuth.{decode_raw_url, check_parts, validate_id_token_nonce}

-- The middle one of three parts holds the expected nonce.
pub record HasNonce (nonce_claim : Text → Option Text) (id_token expected : Text) : Type 0 where
  pub head : Text
  pub payload : Text
  pub signature : Text
  pub parts : split b'.' id_token ≡ head ∷ payload ∷ signature ∷ []
  pub claims : Text
  pub decoded : decode_raw_url payload ≡ some claims
  pub nonce : nonce_claim claims ≡ some expected

module _ (nonce_claim : Text → Option Text) (id_token expected : Text) where
  by_parts :
      (ps : List Text)
      → split b'.' id_token ≡ ps
      → check_parts nonce_claim expected ps ≡ none
      → HasNonce nonce_claim id_token expected
  by_parts [] e h = absurd (ground arith)
  by_parts (a ∷ []) e h = absurd (ground arith)
  by_parts (a ∷ b ∷ []) e h = absurd (ground arith)
  by_parts (a ∷ b ∷ c ∷ d ∷ ps) e h = absurd (ground arith)
  by_parts (a ∷ b ∷ c ∷ []) e h = elim (Option-cases (decode_raw_url b)) [
    | inl n ↦ absurd (ground (arith, n))
    | inr (claims, m) ↦ elim (Option-cases (nonce_claim claims)) [
      | inl n ↦ absurd (ground (arith, n, m))
      | inr (nonce, k) ↦ record {
        head = a;
        payload = b;
        signature = c;
        parts = e;
        claims = claims;
        decoded = m;
        nonce = ground (arith, m, k, eq_iff nonce expected);
      }
    ]
  ]

  -- An ID token that is there is accepted only if it has three parts, and the middle one decodes to
  -- claims with the nonce of this connection.
  pub validate_id_token_nonce-HasNonce :
      id_token ≢ []
      → validate_id_token_nonce nonce_claim id_token expected ≡ none
      → HasNonce nonce_claim id_token expected
  unfolding validate_id_token_nonce
  validate_id_token_nonce-HasNonce ne h =
      by_parts (split b'.' id_token) refl (ground (arith, eq_iff id_token []))
