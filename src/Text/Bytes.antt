-- ===== src/Text/Bytes.antt =====
-- Tests that hold of each byte, under the operations on texts, and reading joined texts back.
use familiar_fleet.Base.{
  inr, inl, Bool-cases, ℕ, zero, suc, ◌+◌, ◌/◌, ◌%◌, Bool, true, not, ◌≡◌, ◌≢◌, List, [], ◌∷◌, ◌++◌,
  Text, nat_eq, ◌==◌, eq_iff, all, arith, refl,
}
use familiar_fleet.Text.{split, join_with, cons_head, itoa, digits_onto, is_digit}

module _ (p : ℕ → Bool) where
  pub all-append : (s t : Text) → all p s ≡ true → all p t ≡ true → all p (s ++ t) ≡ true
  all-append [] t h k = k
  all-append (c ∷ s) t h k = ground (arith, h, all-append s t, k)

  abbrev pub all_all : List Text → Bool
  all_all = all (all p)

  cons_head-all :
      (c : ℕ) (parts : List Text)
      → p c ≡ true
      → all_all parts ≡ true
      → all_all (cons_head c parts) ≡ true
  cons_head-all c [] h k = ground (arith, h)
  cons_head-all c (s ∷ parts) h k = ground (arith, h, k)

  pub split-all_all : (sep : ℕ) (s : Text) → all p s ≡ true → all_all (split sep s) ≡ true
  unfolding split
  split-all_all sep [] h = refl
  split-all_all sep (c ∷ s) h = elim (Bool-cases (c == sep)) [
    | inl e ↦ ground (arith, e, h, split-all_all sep s)
    | inr e ↦ ground (arith, e, h, split-all_all sep s, cons_head-all c (split sep s))
  ]

  pub join_with-all :
      (sep : Text) (parts : List Text)
      → all p sep ≡ true
      → all_all parts ≡ true
      → all p (join_with sep parts) ≡ true
  unfolding join_with
  join_with-all sep [] h k = refl
  join_with-all sep (s ∷ []) h k = ground (arith, k)
  join_with-all sep (s ∷ t ∷ parts) h k =
      all-append s _ (ground (arith, k))
        (all-append sep _ h (join_with-all sep (t ∷ parts) h (ground (arith, k))))

abbrev pub is_not : ℕ → ℕ → Bool
is_not b c = not (c == b)

module _ (sep : ℕ) where
  split-bare : (s : Text) → all (is_not sep) s ≡ true → split sep s ≡ s ∷ []
  unfolding split
  split-bare [] h = refl
  split-bare (c ∷ s) h = ground (arith, h, split-bare s)

  split-first :
      (s t : Text) → all (is_not sep) s ≡ true → split sep (s ++ sep ∷ t) ≡ s ∷ split sep t
  unfolding split
  split-first [] t h = ground (arith, eq_iff sep sep)
  split-first (c ∷ s) t h = ground (arith, h, split-first s t)

  -- Lines that hold no separator are read back from their join.
  pub split-join_with :
      (s : Text) (parts : List Text)
      → all (all (is_not sep)) (s ∷ parts) ≡ true
      → split sep (join_with (sep ∷ []) (s ∷ parts)) ≡ s ∷ parts
  unfolding join_with
  split-join_with s [] h = split-bare s (ground (arith, h))
  split-join_with s (t ∷ parts) h =
      rw
        (
          split-first s (join_with (sep ∷ []) (t ∷ parts)) (ground (arith, h)),
          split-join_with t parts (ground (arith, h)),
        )
        refl

pub weaken-all :
    (p q : ℕ → Bool)
    → ((c : ℕ) → p c ≡ true → q c ≡ true)
    → (s : Text) → all p s ≡ true
    → all q s ≡ true
weaken-all p q w [] h = refl
weaken-all p q w (c ∷ s) h = ground (arith, h, w c, weaken-all p q w s)

digits_onto-all :
    (f n : ℕ) (acc : Text) → all is_digit acc ≡ true → all is_digit (digits_onto f n acc) ≡ true
unfolding digits_onto
digits_onto-all zero n acc h = h
digits_onto-all (suc f) n acc h =
    ground (arith, h, digits_onto-all f (n / 10) ((n % 10 + 48) ∷ acc))

pub itoa-all : (n : ℕ) → all is_digit (itoa n) ≡ true
unfolding itoa
itoa-all n = digits_onto-all (suc n) n [] refl

digits_onto-ne : (f n c : ℕ) (acc : Text) → digits_onto f n (c ∷ acc) ≢ []
unfolding digits_onto
digits_onto-ne zero n c acc = λ e. ground (arith, e)
digits_onto-ne (suc f) n c acc =
    λ e. ground (arith, e, digits_onto-ne f (n / 10) (n % 10 + 48) (c ∷ acc))

pub itoa-ne : (n : ℕ) → itoa n ≢ []
unfolding itoa digits_onto
itoa-ne n = λ e. ground (arith, e, digits_onto-ne n (n / 10) (n % 10 + 48) [])
