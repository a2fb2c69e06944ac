-- ===== src/Tiamat.antt =====
-- internal/client/tiamat.go: the router's URL and the token file, resolved before the Herdr server
-- starts. `Stat` is what os.Stat finds at a path, with what opening the file gives.
pub mod Usable
use familiar_fleet.Base.{
  ℕ, Bool, true, false, not, ◌||◌, Option, none, some, List, [], ◌∷◌, Text, text_eq, nat_eq, ◌==◌,
  ◌!=◌, ltb, if◌then◌else◌, ◌⊎◌, inl, inr,
}
use familiar_fleet.Text.{contains_any, trim_space}

-- `opened`: the contents, if this user may open the file.
pub record FileInfo : Type 0 where
  pub is_regular : Bool
  pub size : ℕ
  pub opened : Option Text

pub data Stat : Type 0 where
  missing : Stat
  unusable : Stat
  found : FileInfo → Stat

pub data TiamatError : Type 0 where
  url_file_missing : TiamatError
  url_file_unusable : TiamatError
  url_file_not_regular : TiamatError
  url_file_too_large : TiamatError
  url_file_not_readable : TiamatError
  url_file_empty : TiamatError
  url_file_not_one_url : TiamatError
  token_file_missing : TiamatError
  token_file_unusable : TiamatError
  token_file_not_regular : TiamatError
  token_file_empty : TiamatError
  token_file_not_readable : TiamatError

pub record TiamatPreflight : Type 0 where
  pub url : Text
  pub token_file : Text
  pub token_file_explicit : Bool

abbrev one_url : Text → TiamatError ⊎ Text
one_url value =
    if value == []
    then inl url_file_empty
    else if contains_any value (13 ∷ 10 ∷ 0 ∷ [])
    then inl url_file_not_one_url
    else inr value

abbrev read_url : Option Text → TiamatError ⊎ Text
read_url none = inl url_file_not_readable
read_url (some contents) = one_url (trim_space contents)

abbrev url_of : Stat → TiamatError ⊎ Text
url_of missing = inl url_file_missing
url_of unusable = inl url_file_unusable
url_of (found info) =
    if not info.is_regular
    then inl url_file_not_regular
    else if ltb 4096 info.size
    then inl url_file_too_large
    else read_url info.opened

abbrev token_opened : Option Text → Option TiamatError
token_opened none = some token_file_not_readable
token_opened (some contents) = none

abbrev token_error : Stat → Option TiamatError
token_error missing = some token_file_missing
token_error unusable = some token_file_unusable
token_error (found info) =
    if not info.is_regular
    then some token_file_not_regular
    else if info.size == 0
    then some token_file_empty
    else token_opened info.opened

module _ (stat : Text → Stat) where
  -- readTiamatURLFile
  unfoldable pub read_tiamat_url_file : Text → TiamatError ⊎ Text
  read_tiamat_url_file path = url_of (stat path)

  -- checkTokenFile: the error, if there is one
  unfoldable pub check_token_file : Text → Option TiamatError
  check_token_file path = token_error (stat path)

  abbrev checked : Text → Text → Bool → Option TiamatError → TiamatError ⊎ TiamatPreflight
  checked url path explicit (some e) = inl e
  checked url path explicit none =
      inr (record { url = url; token_file = path; token_file_explicit = explicit })

  abbrev with_url : Text → Text → TiamatError ⊎ Text → TiamatError ⊎ TiamatPreflight
  with_url default_file explicit (inl e) = inl e
  with_url default_file explicit (inr url) =
      if explicit != []
      then checked url explicit true (check_token_file explicit)
      else checked url default_file false (check_token_file default_file)

  abbrev url_or_file : Text → Text → TiamatError ⊎ Text
  url_or_file url file = if url == [] then read_tiamat_url_file file else inr url

  -- ResolveTiamat: the two paths of the state directory, and the two environment variables, which
  -- are empty texts where they are not set
  unfoldable pub resolve_tiamat :
      (url_file token_file url_env token_env : Text) → TiamatError ⊎ TiamatPreflight
  resolve_tiamat url_file token_file url_env token_env =
      with_url token_file (trim_space token_env) (url_or_file (trim_space url_env) url_file)
