-- ===== src/PaneShell/Launcher/Order.antt =====
-- What runs last in the startup files.
use familiar_fleet.Base.{
  ℕ, zero, suc, drop, ◌≢◌, ◌≡◌, refl, ap, ◌∙◌, sym, List, [], ◌∷◌, ◌++◌, append_assoc, Text, arith,
}
use familiar_fleet.Text.{join_with}
use familiar_fleet.PaneShell.Launcher.{
  bashrc_lines, posix_env_lines, zlogin_lines, zsh_finalize_lines, lines_of, path_assertion_sh,
  bashrc, zlogin, zsh_finalize, posix_env,
}

-- The text ends in the other.
abbrev pub EndsIn : (whole end : Text) → Type 0
EndsIn whole end = (front : Text) × (whole ≡ front ++ end)

EndsIn-trans : {a b c : Text} → EndsIn a b → EndsIn b c → EndsIn a c
EndsIn-trans {a} {b} {c} (x, e) (y, f) = (x ++ y, e ∙ ap (λ t. x ++ t) f ∙ sym (append_assoc x y c))

drop-nil : (n : ℕ) (s : Text) (more : List Text) → drop n [] ≢ s ∷ more
drop-nil zero s more h = ground (arith, h)
drop-nil (suc n) s more h = ground (arith, h)

-- The lines end in what is left when the first ones are dropped.
lines-EndsIn :
    (n : ℕ) (ls : List Text) (s : Text) (more : List Text)
    → drop n ls ≡ s ∷ more
    → EndsIn (lines_of ls) (lines_of (s ∷ more))
unfolding join_with
lines-EndsIn zero ls s more h = ([], ap lines_of h)
lines-EndsIn (suc n) [] s more h = absurd (drop-nil (suc n) s more h)
lines-EndsIn (suc n) (l ∷ []) s more h = absurd (drop-nil n s more h)
lines-EndsIn (suc n) (l ∷ k ∷ ls) s more h =
    let (x, e) = lines-EndsIn n (k ∷ ls) s more h in
    (l ++ 10 ∷ x, ap (λ t. l ++ 10 ∷ t) e ∙ sym (append_assoc l (10 ∷ x) (lines_of (s ∷ more))))

bashrc-EndsIn : (bin : Text) → EndsIn (bashrc bin) (path_assertion_sh bin ++ 10 ∷ [])
unfolding bashrc join_with
bashrc-EndsIn bin = lines-EndsIn 15 (bashrc_lines bin) (path_assertion_sh bin) ([] ∷ []) refl

posix_env-EndsIn : (bin : Text) → EndsIn (posix_env bin) (path_assertion_sh bin ++ 10 ∷ [])
unfolding posix_env join_with
posix_env-EndsIn bin = lines-EndsIn 9 (posix_env_lines bin) (path_assertion_sh bin) ([] ∷ []) refl

zsh_finalize-EndsIn : (bin : Text) → EndsIn (zsh_finalize bin) (path_assertion_sh bin)
unfolding zsh_finalize join_with
zsh_finalize-EndsIn bin = lines-EndsIn 3 (zsh_finalize_lines bin) (path_assertion_sh bin) [] refl

zlogin-EndsIn : (bin : Text) → EndsIn (zlogin bin) (path_assertion_sh bin ++ 10 ∷ [])
unfolding zlogin join_with
zlogin-EndsIn bin =
    let (x, e) = zsh_finalize-EndsIn bin in
    EndsIn-trans (lines-EndsIn 3 (zlogin_lines bin) (zsh_finalize bin) ([] ∷ []) refl)
      (x, ap (λ t. t ++ 10 ∷ []) e ∙ append_assoc x (path_assertion_sh bin) (10 ∷ []))

-- The startup files of bash, of a POSIX shell and of a login zsh end in the assertion that puts the
-- runtime first on `PATH`: nothing of the user's runs behind it.
pub startup-EndsIn :
    (bin : Text)
    → EndsIn (bashrc bin) (path_assertion_sh bin ++ 10 ∷ [])
      × EndsIn (posix_env bin) (path_assertion_sh bin ++ 10 ∷ [])
      × EndsIn (zlogin bin) (path_assertion_sh bin ++ 10 ∷ [])
startup-EndsIn bin = (bashrc-EndsIn bin, posix_env-EndsIn bin, zlogin-EndsIn bin)
