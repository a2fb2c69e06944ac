-- ===== src/Tiamat/Usable.antt =====
-- What a resolved Tiamat configuration rests on.
use familiar_fleet.Base.{
  true, ◌≡◌, ◌≢◌, ◌⊎◌, inr, none, [], Text, text_eq, nat_eq, eq_iff, arith, refl,
}
use familiar_fleet.Text.{trim_space}
use familiar_fleet.Tiamat.{
  Stat, missing, unusable, found, FileInfo, TiamatPreflight, resolve_tiamat, read_tiamat_url_file,
  check_token_file, token_error, url_of,
}

-- A regular file that is not empty and that this user may open.
abbrev pub IsUsable : Stat → Type 0
IsUsable s =
    (info : FileInfo) × (s ≡ found info)
    × (info.is_regular ≡ true)
    × (info.size ≢ 0)
    × (info.opened ≢ none)

token-IsUsable : (s : Stat) → token_error s ≡ none → IsUsable s
token-IsUsable missing h = absurd (ground arith)
token-IsUsable unusable h = absurd (ground arith)
token-IsUsable (found info) h =
    (info, refl, ground arith, ground (arith, eq_iff info.size 0), ground arith)

url_non_empty : (s : Stat) (url : Text) → url_of s ≡ inr url → url ≢ []
url_non_empty missing url h = absurd (ground arith)
url_non_empty unusable url h = absurd (ground arith)
url_non_empty (found info) url h = ground arith

-- A resolved configuration has a URL that is not empty, and its token file is a regular file that
-- is not empty and that this user may open: the one that the environment names, trimmed, or the
-- default.
pub resolve_tiamat-IsUsable :
    (stat : Text → Stat) (url_file token_file url_env token_env : Text) (r : TiamatPreflight)
    → resolve_tiamat stat url_file token_file url_env token_env ≡ inr r
    → (r.url ≢ [])
      × IsUsable (stat r.token_file)
      × ((r.token_file ≡ trim_space token_env) ⊎ (r.token_file ≡ token_file))
unfolding resolve_tiamat read_tiamat_url_file check_token_file
resolve_tiamat-IsUsable stat url_file token_file url_env token_env r h = (
  ground (arith, url_non_empty (stat url_file), eq_iff (trim_space url_env) []),
  token-IsUsable (stat r.token_file) (ground arith),
  ground arith,
)
