-- ===== src/Descriptor.antt =====
-- internal/client/runtimedesc.go: the enrolled runtime descriptor and its validation.
pub mod Laws
use familiar_fleet.Base.{
  ℕ, zero, suc, Bool, true, false, not, ◌&&◌, ◌||◌, Option, none, some, [], ◌∷◌, Text, codes,
  nat_eq, text_eq, ◌==◌, leb, if◌then◌else◌, ℤ, int_is,
}
use familiar_fleet.Text.{is_digit}

abbrev pub runtime_descriptor_schema : ℕ
runtime_descriptor_schema = 1

-- What stands before and behind the commit in `RuntimeInstallableRE`.
unfoldable pub installable_head : Text
installable_head = codes "github:gisikw/familiar/"

unfoldable pub installable_tail : Text
installable_tail = codes "#familiar-worker-runtime"

abbrev pub is_hex : ℕ → Bool
is_hex c = is_digit c || leb b'a' c && leb c b'f'

-- The rest of a text behind a given prefix.
unfoldable pub strip_prefix : Text → Text → Option Text
strip_prefix [] s = some s
strip_prefix (p ∷ ps) [] = none
strip_prefix (p ∷ ps) (c ∷ s) = if p == c then strip_prefix ps s else none

-- `n` hexadecimal digits and then the tail
unfoldable pub match_commit : ℕ → Text → Bool
match_commit zero s = s == installable_tail
match_commit (suc n) [] = false
match_commit (suc n) (c ∷ s) = is_hex c && match_commit n s

abbrev pub match_rest : Option Text → Bool
match_rest none = false
match_rest (some rest) = match_commit 40 rest

-- RuntimeInstallableRE.MatchString
unfoldable pub match_installable : Text → Bool
match_installable s = match_rest (strip_prefix installable_head s)

pub record RuntimeDescriptor : Type 0 where
  pub schema : ℤ
  pub installable : Text

pub data DescriptorError : Type 0 where
  no_runtime_descriptor : DescriptorError
  unsupported_schema : ℤ → DescriptorError
  omits_installable : DescriptorError
  bad_installable : Text → DescriptorError

unfoldable pub is_zero : RuntimeDescriptor → Bool
is_zero d = int_is d.schema 0 && d.installable == []

-- Validate: the error, if there is one
unfoldable pub validate : RuntimeDescriptor → Option DescriptorError
unfolding is_zero
validate d =
    if is_zero d
    then some no_runtime_descriptor
    else if not (int_is d.schema runtime_descriptor_schema)
    then some (unsupported_schema d.schema)
    else if d.installable == []
    then some omits_installable
    else if not (match_installable d.installable)
    then some (bad_installable d.installable)
    else none
