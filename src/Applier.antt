-- ===== src/Applier.antt =====
-- internal/client/runtimeapply.go, with `Build` and `Smoke` of internal/runtime/store.go: making an
-- installable the active runtime. The executables that the code runs are the parameter `Tools`.
pub mod SmokeEnv
pub mod Aimed
pub mod Commit
pub mod Convergence
pub mod Prepare
pub mod Satisfied
pub mod Safety
pub mod TrueUp
pub mod Vetted
use familiar_fleet.Base.{
  Bool, true, false, Option, none, some, List, [], ◌∷◌, ◌++◌, Text, codes, text_eq, ◌!=◌,
  if◌then◌else◌,
}
use familiar_fleet.Text.{contains_any, fields}
use familiar_fleet.FilePath.{is_abs, clean}
use familiar_fleet.Host.{
  Io, pure, raise, attempt, map_err, finally, perform, ◌>>=◌, ◌>>◌, make_temp, fill_temp, no_op,
  remove_temp, run_output, exit_status, Entry, regular, raw, Info, AppliedRecord, Result, done,
  failed, Error, message, wrap, no_descriptor, executable_not_found, not_activated, retain_runtime,
  prune_failed, record_applied, create_token, write_token, close_token, bad_descriptor,
  true_up_failed, smoke_failed, installable_whitespace, build_failed, wrong_output_count,
}
use familiar_fleet.Descriptor
use familiar_fleet.Descriptor.{RuntimeDescriptor, DescriptorError, no_runtime_descriptor}
use familiar_fleet.Store.{Store, pointer, current_name, validate, activate, tool_of}
use familiar_fleet.Store.GcRoots.{is_store_path, register_gc_root, prune_gc_roots}
use familiar_fleet.Store.Provenance.{read_applied, record_applied_runtime, owner_only}

-- What the program runs: an executable's path by its name, the output of `nix build`, whether
-- `bin/pi --version` exits with 0, and what `nix-store --add-root` leaves at the root.
pub record Tools : Type 0 where
  pub find : Text → Option Text
  pub build : Text → Text → (Text → Option Info) → Option Text × (Text → Option Info)
  pub runs : Text → Bool
  pub realise : Text → Text → Bool × Option Entry

pub record RuntimeApplier : Type 0 where
  pub store : Store
  pub nix : Text
  pub nix_store : Text

pub record RuntimeApplyResult : Type 0 where
  pub target : Text
  pub changed : Bool
  pub skipped : Bool

abbrev pub single_output : List Text → Io Text
single_output (target ∷ []) = pure target
single_output _ = raise (message wrong_output_count)

abbrev pub found_or_raise : Option Text → Io Text
found_or_raise none = raise (message executable_not_found)
found_or_raise (some path) = pure path

-- The token is closed also when its write fails.
close_after : Result (Unit {0}) → Io (Unit {0})
close_after (failed e) = attempt no_op >>= λ _. raise (wrap write_token e)
close_after (done _) = map_err (wrap close_token) no_op

module _ (tools : Tools) where
  abbrev pub lookup_tool : Text → Io Text
  lookup_tool name = found_or_raise (tools.find name)

  -- Build
  unfoldable pub build : Text → Text → Io Text
  build nix installable =
      if is_abs installable
      then pure (clean installable)
      else if contains_any installable (b' ' ∷ 9 ∷ 13 ∷ 10 ∷ [])
      then raise (message installable_whitespace)
      else do
        out ← map_err (wrap build_failed) (run_output (tools.build nix installable))
        single_output (fields out)

  -- the run of the tool, with the token file in place
  run_tool : Text → Io (Unit {0})
  run_tool target = do
    written ← attempt (fill_temp (regular owner_only (raw (codes "smoke-only" ++ 10 ∷ []))))
    close_after written
    map_err (wrap smoke_failed) (perform (λ w. (exit_status (tools.runs (tool_of target)), w)))

  -- Smoke
  unfoldable pub smoke : Text → Io (Unit {0})
  unfolding run_tool close_after
  smoke target = do map_err (wrap create_token) make_temp; finally remove_temp (run_tool target)

  module _ (a : RuntimeApplier) where
    abbrev pub valid_or_none : Text → Result (Unit {0}) → Option Text
    valid_or_none current (done _) = some current
    valid_or_none current (failed e) = none

    abbrev check_current : Text → Result Text → Io (Option Text)
    check_current target (failed e) = pure none
    check_current target (done current) =
        if current != target
        then pure none
        else (attempt (validate current) >>= λ r. pure (valid_or_none current r))

    abbrev check_record : Text → Option AppliedRecord → Io (Option Text)
    check_record installable none = pure none
    check_record installable (some r) =
        if r.installable != installable
        then pure none
        else (attempt (pointer a.store current_name) >>= check_current r.target)

    -- satisfiedBy
    unfoldable pub satisfied_by : Text → Io (Option Text)
    satisfied_by installable = read_applied a.store >>= check_record installable

    abbrev pub nix_for : Text → Io Text
    nix_for installable = if is_abs installable then pure a.nix else lookup_tool a.nix

    unfoldable pub retain : Text → Io (Unit {0})
    retain target =
        if is_store_path target
        then (do
          nix_store ← lookup_tool a.nix_store
          map_err (wrap retain_runtime) (register_gc_root (tools.realise nix_store) a.store target))
        else pure tt

    -- What `Apply` does with a built output before it moves a pointer.
    unfoldable pub vet : Text → Io Text
    vet target = do
      validate target
      map_err (wrap not_activated) (smoke target)
      retain target
      pure target

    -- What it does then.
    unfoldable pub commit : Text → Text → Io RuntimeApplyResult
    commit installable target = do
      changed ← activate a.store target
      map_err (wrap prune_failed) (prune_gc_roots a.store)
      map_err (wrap record_applied)
          (record_applied_runtime a.store (record { installable = installable; target = target }))
      pure (record { target = target; changed = changed; skipped = false })

    unfoldable pub apply_unless : Text → Option Text → Io RuntimeApplyResult
    apply_unless installable (some target) =
        pure (record { target = target; changed = false; skipped = true })
    apply_unless installable none = do
      nix ← nix_for installable
      built ← build nix installable
      target ← vet built
      commit installable target

    -- Apply
    unfoldable pub apply : Text → Io RuntimeApplyResult
    apply installable = satisfied_by installable >>= apply_unless installable

    abbrev descriptor_error : DescriptorError → Error
    descriptor_error no_runtime_descriptor = no_descriptor
    descriptor_error _ = message bad_descriptor

    abbrev pub refuse_descriptor : Option DescriptorError → Io (Unit {0})
    refuse_descriptor none = pure tt
    refuse_descriptor (some e) = raise (wrap bad_descriptor (descriptor_error e))

    -- TrueUp
    unfoldable pub true_up : RuntimeDescriptor → Io RuntimeApplyResult
    true_up d = do
      refuse_descriptor (Descriptor.validate d)
      map_err (wrap true_up_failed) (apply d.installable)
