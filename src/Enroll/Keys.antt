-- ===== src/Enroll/Keys.antt =====
-- `EnsureKey` of internal/client/enroll.go. ssh-keygen is a parameter: whether it succeeds, and which
-- entries it leaves.
use familiar_fleet.Base.{
  Bool, true, false, ◌&&◌, ◌≡◌, ◌≢◌, ◌⊎◌, inl, inr, none, List, [], ◌∷◌, ◌++◌, Text, codes, nat_eq,
  if◌then◌else◌, arith,
}
use familiar_fleet.Host.{
  Io, World, pure, raise, attempt, map_err, guard, ◌>>=◌, ◌>>◌, perform, lstat, read_file, chmod,
  run_leaving_all, Entry, regular, FilePath, Result, done, failed, message, wrap, is_not_exist,
  lookup, incomplete_keypair, not_owner_only, public_key_not_regular, keygen_failed, bad_public_key,
}
use familiar_fleet.State.Files.{is_owner_only, bytes_of}
use familiar_fleet.State.PublicKey.{KeyError, normalize_public_key}

-- privatePath and privatePath + ".pub", by directory and name
abbrev pub public_name : Text → Text
public_name name = name ++ codes ".pub"

abbrev is_regular_entry : Entry → Bool
is_regular_entry (regular _ _) = true
is_regular_entry _ = false

abbrev normalized : KeyError ⊎ Text → Io Text
normalized (inl e) = raise (message bad_public_key)
normalized (inr key) = pure key

module _ (keygen : FilePath → FilePath → Bool × List (FilePath × Entry)) where
  -- the call of ssh-keygen, and the modes of the new files
  unfoldable pub generate : FilePath → FilePath → Io (Unit {0})
  generate private public = do
    map_err (wrap keygen_failed) (run_leaving_all (keygen private public))
    chmod private 0o600
    chmod public 0o644

  -- the tests on what stands at the two paths
  unfoldable pub check_pair : FilePath → FilePath → Result Entry → Result Entry → Io (Unit {0})
  check_pair private public (done p) (done q) = do
    guard (is_owner_only p) not_owner_only
    guard (is_regular_entry q) public_key_not_regular
  check_pair private public (done p) (failed f) = raise (message incomplete_keypair)
  check_pair private public (failed e) (done q) = raise (message incomplete_keypair)
  check_pair private public (failed e) (failed f) =
      if is_not_exist e && is_not_exist f
      then generate private public
      else raise (if is_not_exist e then f else e)

  unfoldable pub read_key : FilePath → Io Text
  read_key public = do
    content ← read_file public
    text ← bytes_of content
    normalized (normalize_public_key text)

  -- EnsureKey
  unfoldable pub ensure_key : FilePath → Text → Io Text
  ensure_key dir name = do
    p ← attempt (lstat (dir ++ name ∷ []))
    q ← attempt (lstat (dir ++ public_name name ∷ []))
    check_pair (dir ++ name ∷ []) (dir ++ public_name name ∷ []) p q
    read_key (dir ++ public_name name ∷ [])

  module _ (dir : FilePath) (name : Text) (w : World) where
    -- Where either file of the pair is there, `EnsureKey` changes no file, for every schedule and at
    -- every outcome.
    pub ensure_key_keeps :
        (lookup (dir ++ name ∷ []) w.entries ≢ none)
          ⊎ (lookup (dir ++ public_name name ∷ []) w.entries ≢ none)
        → (ensure_key dir name w).1.entries ≡ w.entries
    unfolding ensure_key check_pair read_key generate lstat read_file attempt perform ◌>>=◌
    ensure_key_keeps h = ground arith
