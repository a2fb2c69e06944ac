-- ===== src/Store.antt =====
-- internal/runtime/store.go: the pointers `current` and `previous` of the runtime directory, the
-- validation of a runtime, and the operations that move the pointers.
pub mod Activation
pub mod GcRoots
pub mod Provenance
pub mod Paths
pub mod Outside
pub mod Reads
pub mod Rollback
pub mod Safety
pub mod Replace
use Prim.Native.Nat.{bit_and}
use familiar_fleet.Base.{
  Bool, true, false, not, ◌&&◌, ◌||◌, Option, none, some, [], ◌∷◌, ◌++◌, Text, codes, text_eq,
  nat_eq, ◌==◌, ◌!=◌, if◌then◌else◌,
}
use familiar_fleet.Text.{contains_any}
use familiar_fleet.FilePath.{is_abs, clean, join}
use familiar_fleet.Host.{
  Io, pure, raise, attempt, map_err, guard, finally, ◌>>=◌, ◌>>◌, lstat, readlink, stat, mkdir_all,
  make_temp, fill_temp, rename_temp, remove_temp, Entry, symlink, FilePath, Info, Kind,
  regular_file, directory_file, Result, done, failed, Error, message, wrap, no_runtime,
  is_no_runtime, is_not_exist, not_absolute, unsafe_characters, stat_runtime, not_directory,
  no_tool, tool_not_executable, not_a_symlink, relative_pointer, how_to_activate, runtime_unusable,
  record_previous, activate_runtime, no_previous, refusing_rollback, link_not_a_symlink,
}

abbrev pub current_name : Text
current_name = codes "current"

abbrev pub previous_name : Text
previous_name = codes "previous"

abbrev pub applied_name : Text
applied_name = codes "applied.json"

abbrev pub required_tool : Text
required_tool = codes "pi"

pub record Store : Type 0 where
  pub dir : FilePath

-- filepath.Join(s.Dir, name)
abbrev pub in_store : Store → Text → FilePath
in_store s name = s.dir ++ name ∷ []

abbrev pub current : Store → FilePath
current s = in_store s current_name

abbrev pub previous : Store → FilePath
previous s = in_store s previous_name

abbrev pub gc_roots : Store → FilePath
gc_roots s = in_store s (codes "gcroots")

abbrev pub applied_path : Store → FilePath
applied_path s = in_store s applied_name

abbrev is_dir : Kind → Bool
is_dir directory_file = true
is_dir _ = false

abbrev is_regular : Kind → Bool
is_regular regular_file = true
is_regular _ = false

-- the sets ":\r\n" and "'\"$`\\" of `Validate`
abbrev pub is_unsafe : Text → Bool
is_unsafe target =
    contains_any target (b':' ∷ 13 ∷ 10 ∷ []) || contains_any target (39 ∷ 34 ∷ 36 ∷ 96 ∷ 92 ∷ [])

abbrev pub tool_of : Text → Text
tool_of target = join (target ∷ codes "bin" ∷ required_tool ∷ [])

abbrev pub is_executable : Info → Bool
is_executable info = is_regular info.kind && not (bit_and info.perm 0o111 == 0)

abbrev pub is_directory : Info → Bool
is_directory info = is_dir info.kind

unfoldable pub validate : Text → Io (Unit {0})
validate target = do
  guard (is_abs target) not_absolute
  guard (not (is_unsafe target)) unsafe_characters
  info ← map_err (wrap stat_runtime) (stat target)
  guard (is_directory info) not_directory
  tool ← map_err (wrap no_tool) (stat (tool_of target))
  guard (is_executable tool) tool_not_executable

abbrev missing_as_no_runtime : Error → Error
missing_as_no_runtime e = if is_not_exist e then no_runtime else e

abbrev is_symlink : Entry → Bool
is_symlink (symlink _) = true
is_symlink _ = false

-- Pointer
unfoldable pub pointer : Store → Text → Io Text
pointer s name = do
  info ← map_err missing_as_no_runtime (lstat (in_store s name))
  guard (is_symlink info) not_a_symlink
  target ← readlink (in_store s name)
  guard (is_abs target) relative_pointer
  pure target

pub record PointerStatus : Type 0 where
  pub target : Text
  pub problem : Option Error

pub record Status : Type 0 where
  pub dir : FilePath
  pub current : PointerStatus
  pub previous : PointerStatus

abbrev problem_of : Text → Result (Unit {0}) → PointerStatus
problem_of target (done _) = record { target = target; problem = none }
problem_of target (failed e) = record { target = target; problem = some e }

abbrev check_target : Result Text → Io PointerStatus
check_target (failed e) = pure (record { target = []; problem = some e })
check_target (done target) = do r ← attempt (validate target); pure (problem_of target r)

abbrev status_of : Store → Text → Io PointerStatus
status_of s name = do found ← attempt (pointer s name); check_target found

-- Status
unfoldable pub status : Store → Io Status
status s = do
  c ← status_of s current_name
  p ← status_of s previous_name
  pure (record { dir = s.dir; current = c; previous = p })

abbrev pub advise : Error → Error
advise e = if is_no_runtime e then wrap how_to_activate no_runtime else e

-- Ready
unfoldable pub ready : Store → Io Text
ready s = do
  target ← map_err advise (pointer s current_name)
  map_err (wrap runtime_unusable) (validate target)
  pure target

-- Only a missing entry or a symlink may be replaced; a failed lstat is passed over.
abbrev may_replace : Result Entry → Bool
may_replace (failed e) = true
may_replace (done x) = is_symlink x

-- replaceSymlink; `defer os.RemoveAll(tmp)` runs after the rename
unfoldable pub replace_symlink : FilePath → Text → Io (Unit {0})
replace_symlink link target = do
  info ← attempt (lstat link)
  guard (may_replace info) link_not_a_symlink
  make_temp
  finally remove_temp (fill_temp (symlink target) >> rename_temp link)

-- The two writes of `Activate`; an empty text stands for no runtime.
unfoldable pub repoint : Store → Text → Text → Io Bool
repoint s old target = do
  if old != [] then map_err (wrap record_previous) (replace_symlink (previous s) old) else pure tt
  map_err (wrap activate_runtime) (replace_symlink (current s) target)
  pure true

-- the switch of `Activate`
unfoldable pub activate_from : Store → Text → Result Text → Io Bool
activate_from s target (failed e) = if is_no_runtime e then repoint s [] target else raise e
activate_from s target (done old) = if old == target then pure false else repoint s old target

-- Activate: true if `current` moved
unfoldable pub activate : Store → Text → Io Bool
activate s given = do
  let target = clean given
  validate target
  mkdir_all s.dir
  old ← attempt (pointer s current_name)
  activate_from s target old

abbrev pub nothing_before : Error → Error
nothing_before e = if is_no_runtime e then message no_previous else e

-- Rollback
unfoldable pub rollback : Store → Io Text
rollback s = do
  target ← map_err nothing_before (pointer s previous_name)
  map_err (wrap refusing_rollback) (validate target)
  changed ← activate s target
  pure target
