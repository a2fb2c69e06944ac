-- ===== src/State/Files.antt =====
-- The state file of internal/client/state.go. encoding/json is the parameter `Codec`.
pub mod Accepted
pub mod RoundTrip
use Prim.Native.Nat.{bit_and}
use familiar_fleet.Base.{
  ℕ, Bool, true, false, not, ◌&&◌, ◌||◌, Option, none, some, [], ◌∷◌, ◌++◌, Text, nat_eq, ◌==◌, ltb,
  length, if◌then◌else◌, ℤ, pos, int_is,
}
use familiar_fleet.Host.{
  Io, pure, raise, attempt, map_err, guard, finally, lift_result, ◌>>=◌, ◌>>◌, lstat, read_file,
  make_temp, fill_temp, rename_temp, remove_temp, no_op, Entry, regular, Content, raw, FilePath,
  Result, done, failed, Error, Reason, message, wrap, no_descriptor, io, is_not_exist,
  not_owner_only, state_too_large, decode_state, trailing_data, unsupported_version, saved_endpoint,
  saved_user, saved_enrollment, predates_descriptor,
}
use familiar_fleet.Descriptor.{no_runtime_descriptor}
use familiar_fleet.Endpoint.{Urls, validate_endpoint}
use familiar_fleet.State.{Enrollment, EnrollmentError, runtime_descriptor, validate_enrollment}
use familiar_fleet.State.Grammar.{match_user}
use familiar_fleet.Store.Provenance.{first_error, owner_only}

-- the type `State`
pub record Saved : Type 0 where
  pub version : ℤ
  pub endpoint : Text
  pub ssh_user : Text
  pub enrollment : Enrollment

-- What a strict decoder makes of a text: `invalid` for a syntax error, a wrong type or an unknown
-- field, `trailing` where more follows the value.
pub data Decoded {ℓ} (A : Type ℓ) : Type ℓ where
  invalid : Decoded A
  trailing : Decoded A
  value : A → Decoded A

pub record Codec {ℓ} (A : Type ℓ) : Type ℓ where
  pub encode : A → Text
  pub decode : Text → Decoded A

-- stateVersion
abbrev pub state_version : ℕ
state_version = 1

-- the file under its temporary name, up to the rename
abbrev pub write_mode : FilePath → Text → ℕ → Io (Unit {0})
write_mode path text mode = do
  written ←
      attempt (fill_temp (regular mode (raw [])) >> fill_temp (regular mode (raw text)) >> no_op)
  closed ← attempt no_op
  first_error written closed
  rename_temp path

-- atomicWrite
unfoldable pub atomic_write : FilePath → Text → ℕ → Io (Unit {0})
atomic_write path text mode = do make_temp; finally remove_temp (write_mode path text mode)

-- a regular file that only its owner may use
abbrev pub is_owner_only : Entry → Bool
is_owner_only (regular mode _) = bit_and mode 0o077 == 0
is_owner_only _ = false

abbrev pub size_of : Entry → ℕ
size_of (regular _ (raw t)) = length t
size_of _ = 0

-- The bytes of a file; no file of the program but the record of the store holds anything else.
abbrev pub bytes_of : Content → Io Text
bytes_of (raw t) = pure t
bytes_of _ = raise io

abbrev pub enrollment_reason : EnrollmentError → Error
enrollment_reason (runtime_descriptor no_runtime_descriptor) = message predates_descriptor
enrollment_reason _ = message saved_enrollment

module _ (codec : Codec Saved) (urls : Urls) (is_ip : Text → Bool) where
  abbrev pub check_enrollment : Saved → Option EnrollmentError → Io (Option Saved)
  check_enrollment s none = pure (some s)
  check_enrollment s (some e) = raise (enrollment_reason e)

  -- the tests of `LoadState` on a decoded state
  abbrev pub check_saved : Saved → Io (Option Saved)
  check_saved s = do
    guard (int_is s.version state_version) unsupported_version
    guard (validate_endpoint urls s.endpoint) saved_endpoint
    guard (match_user s.ssh_user) saved_user
    check_enrollment s (validate_enrollment is_ip s.enrollment)

  abbrev pub check_decoded : Decoded Saved → Io (Option Saved)
  check_decoded invalid = raise (message decode_state)
  check_decoded trailing = raise (message trailing_data)
  check_decoded (value s) = check_saved s

  abbrev pub load_from : FilePath → Result Entry → Io (Option Saved)
  load_from path (failed e) = if is_not_exist e then pure none else raise e
  load_from path (done info) = do
    guard (is_owner_only info) not_owner_only
    guard (not (ltb 1048576 (size_of info))) state_too_large
    content ← read_file path
    text ← bytes_of content
    check_decoded (codec.decode text)

  -- LoadState: `none` where there is no file
  unfoldable pub load_state : FilePath → Io (Option Saved)
  load_state path = do info ← attempt (lstat path); load_from path info

  abbrev pub current_version : Saved → Saved
  current_version s = record s { version = pos state_version }

  -- SaveState; the encoding of a state does not fail
  unfoldable pub save_state : FilePath → Saved → Io (Unit {0})
  save_state path s = atomic_write path (codec.encode (current_version s) ++ 10 ∷ []) owner_only
