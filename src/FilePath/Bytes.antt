-- ===== src/FilePath/Bytes.antt =====
-- What a path keeps of the bytes that it is made of.
use familiar_fleet.Base.{
  inr, inl, Bool-cases, ℕ, Bool, true, false, ◌≡◌, List, [], ◌∷◌, Text, all, arith, refl, text_eq,
}
use familiar_fleet.Text.{split, join_with}
use familiar_fleet.Text.Bytes.{all_all, split-all_all, join_with-all}
use familiar_fleet.FilePath.{or_dot, slash, clean, join, resolve, resolve_all, is_abs}
use mathlib.Core.List.{reverse_aux, reverse}

module _ (p : ℕ → Bool) (h : p b'/' ≡ true) (k : p b'.' ≡ true) where
  resolve-all_all :
      (b : Bool) (stack : List Text) (part : Text)
      → all_all p stack ≡ true
      → all p part ≡ true
      → all_all p (resolve b stack part) ≡ true
  unfolding resolve
  resolve-all_all b [] part s t = ground (arith, k, s, t)
  resolve-all_all b (top ∷ stack) part s t = ground (arith, k, s, t)

  resolve_all-all_all :
      (b : Bool) (stack parts : List Text)
      → all_all p stack ≡ true
      → all_all p parts ≡ true
      → all_all p (resolve_all b stack parts) ≡ true
  unfolding resolve_all
  resolve_all-all_all b stack [] s t = s
  resolve_all-all_all b stack (part ∷ parts) s t =
      resolve_all-all_all b (resolve b stack part) parts
        (resolve-all_all b stack part s (ground (arith, t))) (ground (arith, t))

  reverse_aux-all_all :
      (xs ys : List Text)
      → all_all p xs ≡ true
      → all_all p ys ≡ true
      → all_all p (reverse_aux xs ys) ≡ true
  reverse_aux-all_all [] ys s t = t
  reverse_aux-all_all (x ∷ xs) ys s t =
      reverse_aux-all_all xs (x ∷ ys) (ground (arith, s)) (ground (arith, s, t))

  body-all :
      (b : Bool) (s : Text)
      → all p s ≡ true
      → all p (join_with (slash ∷ []) (reverse (resolve_all b [] (split slash s)))) ≡ true
  body-all b s t = join_with-all p (slash ∷ []) _ (ground (arith, h)) (
      reverse_aux-all_all (resolve_all b [] (split slash s)) []
        (resolve_all-all_all b [] (split slash s) refl (split-all_all p slash s t)) refl)

  or_dot-all : (s : Text) → all p s ≡ true → all p (or_dot s) ≡ true
  or_dot-all [] t = ground (arith, k)
  or_dot-all (c ∷ s) t = t

  pub clean-all : (s : Text) → all p s ≡ true → all p (clean s) ≡ true
  unfolding clean
  clean-all s t = elim (Bool-cases (is_abs s)) [
    | inl e ↦ rw e (ground (arith, h, body-all true s t))
    | inr e ↦ rw e (or_dot-all _ (body-all false s t))
  ]

  -- A test that holds of the separator, of the dot and of every byte of the elements holds of every
  -- byte of their join.
  pub join-all : (parts : List Text) → all_all p parts ≡ true → all p (join parts) ≡ true
  unfolding join
  join-all [] t = refl
  join-all ([] ∷ parts) t = join-all parts (ground (arith, t))
  join-all ((c ∷ s) ∷ parts) t =
      clean-all _ (join_with-all p (slash ∷ []) ((c ∷ s) ∷ parts) (ground (arith, h)) t)
