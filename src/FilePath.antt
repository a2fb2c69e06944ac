-- ===== src/FilePath.antt =====
-- Go's `path/filepath` on Unix, over lists of bytes: IsAbs, Clean, Join, Dir and Base.
pub mod Bytes
use familiar_fleet.Base.{
  ℕ, Bool, false, not, ◌&&◌, ◌||◌, ◌≡◌, refl, List, [], ◌∷◌, Text, nat_eq, text_eq, codes, ◌==◌,
  if◌then◌else◌,
}
use familiar_fleet.Text.{split, join_with, trim_right}
use mathlib.Core.List.{reverse}

abbrev pub slash : ℕ
slash = b'/'

abbrev pub is_abs : Text → Bool
is_abs [] = false
is_abs (c ∷ s) = c == slash

-- One component of `Clean`; the stack has its top at the head.
abbrev pop_or_keep : Bool → List Text → List Text
pop_or_keep rooted [] = if rooted then [] else codes ".." ∷ []
pop_or_keep rooted (top ∷ stack) =
    if not rooted && top == codes ".." then codes ".." ∷ top ∷ stack else stack

unfoldable pub resolve : Bool → List Text → Text → List Text
resolve rooted stack part =
    if part == [] || part == codes "."
    then stack
    else if part == codes ".."
    then pop_or_keep rooted stack
    else part ∷ stack

unfoldable pub resolve_all : Bool → List Text → List Text → List Text
resolve_all rooted stack [] = stack
resolve_all rooted stack (part ∷ parts) = resolve_all rooted (resolve rooted stack part) parts

abbrev pub or_dot : Text → Text
or_dot [] = codes "."
or_dot (c ∷ s) = c ∷ s

unfoldable pub clean : Text → Text
unfolding resolve resolve_all split join_with
clean s =
    let rooted = is_abs s in
    let body = join_with (slash ∷ []) (reverse (resolve_all rooted [] (split slash s))) in
    if rooted then slash ∷ body else or_dot body

-- filepath.Join: empty elements at the front are skipped
unfoldable pub join : List Text → Text
unfolding clean join_with
join [] = []
join ([] ∷ parts) = join parts
join ((c ∷ s) ∷ parts) = clean (join_with (slash ∷ []) ((c ∷ s) ∷ parts))

-- What follows the last slash, and what stands before it with it.
last_part : Text → List Text → Text
last_part s [] = s
last_part s (t ∷ parts) = last_part t parts

abbrev up_to_slash : Text → Text
up_to_slash s = trim_right (λ c. not (c == slash)) s

unfoldable pub dir : Text → Text
unfolding clean trim_right
dir s = clean (up_to_slash s)

unfoldable pub base : Text → Text
unfolding last_part split trim_right
base [] = codes "."
base (c ∷ s) =
    let bare = trim_right (λ x. x == slash) (c ∷ s) in
    if bare == [] then slash ∷ [] else last_part [] (split slash bare)

clean_tests :
    (clean (codes "/a/../../b//./c/") ≡ codes "/b/c")
    × (clean (codes "../x/../y") ≡ codes "../y")
    × (clean [] ≡ codes ".")
    × (clean (codes "/..") ≡ codes "/")
unfolding clean
clean_tests = (refl, refl, refl, refl)

parts_tests :
    (dir (codes "/nix/store/abc") ≡ codes "/nix/store")
    × (base (codes "/nix/store/abc/") ≡ codes "abc")
    × (dir (codes "abc") ≡ codes ".")
    × (join (codes "/s" ∷ codes "runtime" ∷ codes "pi" ∷ []) ≡ codes "/s/runtime/pi")
    × (join ([] ∷ codes "a" ∷ []) ≡ codes "a")
unfolding dir base join
parts_tests = (refl, refl, refl, refl, refl)
