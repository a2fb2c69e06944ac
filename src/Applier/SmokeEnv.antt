-- ===== src/Applier/SmokeEnv.antt =====
-- `smokeEnv` of internal/runtime/store.go and the variables that `Smoke` gives it. The order of a Go map
-- is not determined: the overrides are in any order.
pub mod Unordered
use familiar_fleet.Base.{
  Bool, true, false, Option, none, some, List, [], ◌∷◌, ◌++◌, Text, codes, text_eq, ◌==◌, contains,
  if◌then◌else◌, map, any,
}
use familiar_fleet.FilePath.{join}
use familiar_fleet.Environment.{split_at_equals, key_or_all}

-- strings.Cut at the first equals sign, its first result
abbrev pub key_of : Text → Text
key_of entry = key_or_all entry (split_at_equals entry)

abbrev pub has_key : List (Text × Text) → Text → Bool
has_key overrides key = any (λ o. o.0 == key) overrides

abbrev pub assignment : Text × Text → Text
assignment (key, value) = key ++ b'=' ∷ value

abbrev pub kept : List Text → List (Text × Text) → List Text
kept [] overrides = []
kept (entry ∷ environ) overrides =
    let rest = kept environ overrides in
    if has_key overrides (key_of entry) then rest else entry ∷ rest

unfoldable pub smoke_env : List Text → List (Text × Text) → List Text
smoke_env environ overrides = kept environ overrides ++ map assignment overrides

-- what `Smoke` overrides: `path` is the process's own PATH, and `token` the temporary file
unfoldable pub smoke_overrides : (target path token : Text) → List (Text × Text)
smoke_overrides target path token =
    (codes "PATH", join (target ∷ codes "bin" ∷ []) ++ b':' ∷ path)
    ∷ (codes "FAMILIAR_TIAMAT_URL", codes "http://127.0.0.1")
    ∷ (codes "FAMILIAR_TIAMAT_TOKEN_FILE", token)
    ∷ []
