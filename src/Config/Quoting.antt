-- ===== src/Config/Quoting.antt =====
-- The quoting functions against readers of the quoted form.
use familiar_fleet.Base.{
  ℕ, Bool, true, false, Option, none, some, [], ◌∷◌, ◌++◌, Text, nat_eq, text_eq, ◌==◌, ◌≡◌, refl,
  arith, if◌then◌else◌, eq_iff,
}
use familiar_fleet.Text.{replace_byte}
use familiar_fleet.Config.{shell_quote, sshd_quote, escape}

-- Where a POSIX shell stands in a word: outside quotes, behind a backslash, or in single quotes.
pub data Mode : Type 0 where
  bare : Mode
  escaped : Mode
  quoted : Mode

abbrev special : ℕ → Bool
special c = if c == 39 then true else c == 92

-- The word that a POSIX shell reads from a text of single quotes and escaped characters; `none`
-- where it is not closed, or where another character stands outside the quotes.
unfoldable pub shell_word : Mode → Text → Option Text
shell_word bare [] = some []
shell_word escaped [] = none
shell_word quoted [] = none
shell_word bare (c ∷ s) =
    if c == 39 then shell_word quoted s else if c == 92 then shell_word escaped s else none
shell_word escaped (c ∷ s) = elim (shell_word bare s) [ none ↦ none | some w ↦ some (c ∷ w) ]
shell_word quoted (c ∷ s) =
    if c == 39
    then shell_word bare s
    else elim (shell_word quoted s) [ none ↦ none | some w ↦ some (c ∷ w) ]

inside :
    (s : Text) → shell_word quoted (replace_byte 39 (39 ∷ 92 ∷ 39 ∷ 39 ∷ []) s ++ 39 ∷ []) ≡ some s
unfolding shell_word replace_byte
inside [] = refl
inside (c ∷ s) = ground (arith, inside s, eq_iff c 39)

-- A POSIX shell reads the quoted form of any text as one word: the text.
pub shell_word-shell_quote : (s : Text) → shell_word bare (shell_quote s) ≡ some s
unfolding shell_word shell_quote
shell_word-shell_quote s = inside s

-- What sshd and TOML read between double quotes, where a backslash keeps the next character.
unfoldable pub unescape : Bool → Text → Option Text
unescape true [] = none
unescape false [] = none
unescape true (c ∷ s) = elim (unescape false s) [ none ↦ none | some w ↦ some (c ∷ w) ]
unescape false (c ∷ s) =
    if c == 92
    then unescape true s
    else if c == 34
    then (if s == [] then some [] else none)
    else elim (unescape false s) [ none ↦ none | some w ↦ some (c ∷ w) ]

abbrev pub unquote : Text → Option Text
unquote [] = none
unquote (c ∷ s) = if c == 34 then unescape false s else none

unescape-escape : (s : Text) → unescape false (escape s ++ 34 ∷ []) ≡ some s
unfolding unescape escape
unescape-escape [] = refl
unescape-escape (c ∷ s) = ground (arith, unescape-escape s, eq_iff c 92, eq_iff c 34)

-- Reading the double-quoted form of any text, where a backslash keeps the next character, gives
-- the text.
pub unquote-sshd_quote : (s : Text) → unquote (sshd_quote s) ≡ some s
unfolding sshd_quote
unquote-sshd_quote s = unescape-escape s
