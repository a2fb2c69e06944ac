-- ===== src/Descriptor/Laws.antt =====
-- What a valid descriptor is, said without the matcher.
use familiar_fleet.Base.{
  ℕ, zero, suc, ◌≡◌, refl, ap, ◌∙◌, ◌↔◌, ◌≢◌, true, none, some, [], ◌∷◌, ◌++◌, Text, nat_eq,
  text_eq, eq_iff, length, all, ℤ, pos, arith, Option-cases, int_is, inl, inr, negsuc, subst,
}
use familiar_fleet.Descriptor.{
  RuntimeDescriptor, installable_head, installable_tail, is_hex, strip_prefix, match_commit,
  match_rest, match_installable, validate,
}

-- An installable that names one commit: the fixed head, forty hexadecimal digits, the fixed tail.
pub record NamesCommit (s : Text) : Type 0 where
  pub commit : Text
  pub digits : length commit ≡ 40
  pub hex : all is_hex commit ≡ true
  pub spelled : s ≡ installable_head ++ (commit ++ installable_tail)

strip_prefix_sound : (p s r : Text) → strip_prefix p s ≡ some r → s ≡ p ++ r
unfolding strip_prefix
strip_prefix_sound [] s r h = ground arith
strip_prefix_sound (x ∷ p) [] r h = cc
strip_prefix_sound (x ∷ p) (c ∷ s) r h = ground (arith, strip_prefix_sound p s r)

strip_prefix-append : (p r : Text) → strip_prefix p (p ++ r) ≡ some r
unfolding strip_prefix
strip_prefix-append [] r = refl
strip_prefix-append (x ∷ p) r = ground (arith, strip_prefix-append p r)

match_commit_sound :
    (n : ℕ) (s : Text)
    → match_commit n s ≡ true
    → (commit : Text) × (length commit ≡ n)
      × (all is_hex commit ≡ true)
      × (s ≡ commit ++ installable_tail)
unfolding match_commit
match_commit_sound zero s h = ([], refl, refl, (eq_iff s installable_tail).0 h)
match_commit_sound (suc n) [] h = cc
match_commit_sound (suc n) (c ∷ s) h =
    let (commit, size, hex, same) = match_commit_sound n s (ground arith) in
    (c ∷ commit, ap suc size, ground arith, ap (◌∷◌ c) same)

match_commit_complete :
    (commit : Text)
    → all is_hex commit ≡ true
    → match_commit (length commit) (commit ++ installable_tail) ≡ true
unfolding match_commit
match_commit_complete [] h = (eq_iff installable_tail installable_tail).1 refl
match_commit_complete (c ∷ commit) h = ground (arith, match_commit_complete commit)

match_installable_sound : (s : Text) → match_installable s ≡ true → NamesCommit s
unfolding match_installable
match_installable_sound s h = elim (Option-cases (strip_prefix installable_head s)) [
  | inl e ↦ absurd (cc (rw e at h))
  | inr (r, e) ↦
      let (commit, size, hex, same) = match_commit_sound 40 r (rw e at h) in
      record {
        commit = commit;
        digits = size;
        hex = hex;
        spelled = strip_prefix_sound installable_head s r e ∙ ap (λ t. installable_head ++ t) same;
      }
]

match_installable_complete : (s : Text) → NamesCommit s → match_installable s ≡ true
unfolding match_installable
match_installable_complete s n =
    ap match_rest
      (ap (strip_prefix installable_head) n.spelled ∙ strip_prefix-append installable_head _)
    ∙ subst (λ k. match_commit k (n.commit ++ installable_tail) ≡ true) n.digits
        (match_commit_complete n.commit n.hex)

int_is_iff : (i : ℤ) (n : ℕ) → (int_is i n ≡ true) ↔ (i ≡ pos n)
int_is_iff (pos i) n = ground arith
int_is_iff (negsuc i) n = ground arith

NamesCommit-ne_nil : (s : Text) → NamesCommit s → s ≢ []
unfolding installable_head
NamesCommit-ne_nil s n e = cc (n.spelled, e)

-- `Validate` accepts a descriptor exactly when its schema is 1 and its installable is the fixed
-- head, forty hexadecimal digits and the fixed tail.
pub validate_iff :
    (d : RuntimeDescriptor) → (validate d ≡ none) ↔ ((d.schema ≡ pos 1) × NamesCommit d.installable)
unfolding validate
validate_iff d = (forth, back)
  where
    forth : validate d ≡ none → (d.schema ≡ pos 1) × NamesCommit d.installable
    forth h = (
      (int_is_iff d.schema 1).0 (ground arith),
      match_installable_sound d.installable (ground arith),
    )

    back : (d.schema ≡ pos 1) × NamesCommit d.installable → validate d ≡ none
    back (s, n) = ground (
      arith,
      int_is_iff d.schema 0,
      int_is_iff d.schema 1,
      eq_iff d.installable [],
      NamesCommit-ne_nil d.installable n,
      match_installable_complete d.installable n,
    )
