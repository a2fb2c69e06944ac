-- ===== src/Store/Provenance.antt =====
-- internal/runtime/store.go: the record of which installable produced the active runtime.
use familiar_fleet.Base.{
  ℕ, ◌||◌, ◌≡◌, ◌⊎◌, Option, none, some, [], text_eq, texts_eq, ◌==◌, if◌then◌else◌, arith,
}
use familiar_fleet.Host.{
  World, Outcome, ok, err, crash, Io, pure, raise, attempt, finally, perform, lift_result, ◌>>=◌,
  ◌>>◌, read_file, mkdir_all, make_temp, fill_temp, no_op, rename_temp, remove_temp, Content, raw,
  applied, AppliedRecord, regular, put, FilePath, Result, done, failed,
}
use familiar_fleet.Text.Json.{json_text}
use familiar_fleet.Store.{Store, applied_path}

-- json.Unmarshal, and the test on empty fields
abbrev decode : Result Content → Option AppliedRecord
decode (failed e) = none
decode (done (raw t)) = none
decode (done (applied r)) = if r.installable == [] || r.target == [] then none else some r

-- Applied: every failure is a missing record
unfoldable pub read_applied : Store → Io (Option AppliedRecord)
read_applied s = do content ← attempt (read_file (applied_path s)); pure (decode content)

-- `if err == nil { err = closeErr }`
abbrev pub first_error : Result (Unit {0}) → Result (Unit {0}) → Io (Unit {0})
first_error (failed e) _ = raise e
first_error (done _) r = lift_result r

abbrev pub owner_only : ℕ
owner_only = 0o600

-- The file is written and closed under its temporary name, and then renamed.
write_temp : FilePath → Content → Io (Unit {0})
write_temp path content = do
  written ←
      attempt
        (fill_temp (regular owner_only (raw [])) >> fill_temp (regular owner_only content) >> no_op)
  closed ← attempt no_op
  first_error written closed
  rename_temp path

-- The record that json.MarshalIndent has written, as json.Unmarshal reads it.
abbrev pub as_json : AppliedRecord → AppliedRecord
as_json r = record { installable = json_text r.installable; target = json_text r.target }

-- RecordApplied
unfoldable pub record_applied_runtime : Store → AppliedRecord → Io (Unit {0})
unfolding write_temp
record_applied_runtime s r = do
  mkdir_all s.dir
  make_temp
  finally remove_temp (write_temp (applied_path s) (applied (as_json r)))

-- The entries before and after the write of a record, by the outcome; `es` has the directory.
abbrev pub Recorded : Store → AppliedRecord → Outcome (Unit {0}) → (before after : World) → Type 0
Recorded s r (ok _) w w' =
    w'.entries ≡ put (applied_path s) (regular owner_only (applied (as_json r))) w.entries
Recorded s r (err _) w w' = w'.entries ≡ w.entries
Recorded s r crash w w' =
    (w'.entries ≡ w.entries)
    ⊎ (w'.entries ≡ put (applied_path s) (regular owner_only (applied (as_json r))) w.entries)

module _ (s : Store) (r : AppliedRecord) (w : World) where
  -- `RecordApplied` for every schedule, compared with the entries once the directory is made:
  -- success writes the record and nothing else, an error writes nothing, and a crash leaves one or
  -- the other.
  pub record_applied_atomic :
      Recorded s r
        (record_applied_runtime s r w).0
        (mkdir_all s.dir w).1
        (record_applied_runtime s r w).1
  unfolding record_applied_runtime make_temp fill_temp no_op rename_temp remove_temp attempt finally
      perform ◌>>=◌
  record_applied_atomic = ground arith
