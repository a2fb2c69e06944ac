-- ===== src/Store/GcRoots.antt =====
-- internal/runtime/store.go: the Nix garbage-collector roots beneath the runtime directory.
-- The command `nix-store` is a parameter: whether it succeeds, and what it leaves at the root.
pub mod Apart
pub mod Prune
use familiar_fleet.Base.{
  Bool, true, false, Option, none, some, List, [], ◌∷◌, ◌++◌, Text, codes, text_eq, texts_eq, ◌==◌,
  contains, if◌then◌else◌,
}
use familiar_fleet.FilePath.{clean, dir, base}
use familiar_fleet.Host.{
  Io, pure, raise, attempt, map_err, guard, ◌>>=◌, ◌>>◌, readlink, mkdir_all, read_dir, remove_file,
  run_leaving, Entry, FilePath, Result, done, failed, Error, message, wrap, is_no_runtime,
  is_not_exist, not_a_store_output, unexpected_root, inspect_root, register_root, root_not_created,
  unreadable_root,
}
use familiar_fleet.Store.Paths.{root_of}
use familiar_fleet.Store.{Store, gc_roots, pointer, current_name, previous_name}

abbrev pub store_dir : Text
store_dir = codes "/nix/store"

-- IsStorePath
unfoldable pub is_store_path : Text → Bool
is_store_path target = dir (clean target) == store_dir

abbrev pub is_link_to : Text → Result Text → Bool
is_link_to target (done t) = t == target
is_link_to target (failed e) = false

module _ (realise : Text → Bool × Option Entry) where
  unfoldable pub create_root : FilePath → Text → Io (Unit {0})
  create_root root target = do
    map_err (wrap register_root) (run_leaving (realise target) root)
    made ← attempt (readlink root)
    guard (is_link_to target made) root_not_created

  -- by what stands at the root already
  abbrev pub root_from : FilePath → Text → Result Text → Io (Unit {0})
  root_from root target (done t) = if t == target then pure tt else raise (message unexpected_root)
  root_from root target (failed e) =
      if is_not_exist e then create_root root target else raise (wrap inspect_root e)

  -- RegisterGCRoot
  unfoldable pub register_gc_root : Store → Text → Io (Unit {0})
  register_gc_root s given = do
    let target = clean given
    guard (dir target == store_dir) not_a_store_output
    mkdir_all (gc_roots s)
    let root = root_of s (base target)
    existing ← attempt (readlink root)
    root_from root target existing

-- One pointer's part of the `keep` set.
abbrev pub kept_of : Result Text → Io (List Text)
kept_of (done t) = pure (t ∷ [])
kept_of (failed e) = if is_no_runtime e then pure [] else raise e

unfoldable pub keep_set : Store → Io (List Text)
keep_set s = do
  c ← attempt (pointer s current_name)
  keep ← kept_of c
  p ← attempt (pointer s previous_name)
  more ← kept_of p
  pure (keep ++ more)

unfoldable pub prune_one : Store → List Text → Text → Io (Unit {0})
prune_one s keep name = do
  target ← map_err (wrap unreadable_root) (readlink (root_of s name))
  if contains keep target then pure tt else remove_file (root_of s name)

unfoldable pub prune_each : Store → List Text → List Text → Io (Unit {0})
prune_each s keep [] = pure tt
prune_each s keep (name ∷ names) = prune_one s keep name >>= λ _. prune_each s keep names

unfoldable pub prune_listed : Store → List Text → Result (List Text) → Io (Unit {0})
prune_listed s keep (done names) = prune_each s keep names
prune_listed s keep (failed e) = if is_not_exist e then pure tt else raise e

-- PruneGCRoots
unfoldable pub prune_gc_roots : Store → Io (Unit {0})
prune_gc_roots s = do
  keep ← keep_set s
  listed ← attempt (read_dir (gc_roots s))
  prune_listed s keep listed
