-- ===== src/Examples/Stores.antt =====
-- The theorems on the store, on `Apply` and on the environment of a smoke run, at a machine with two
-- runtimes.
use mathlib.Core.List.{Permᴰ, Perm}
use familiar_fleet.Environment.{env_find, first_some}
use familiar_fleet.Applier.SmokeEnv.{smoke_env, smoke_overrides}
use familiar_fleet.Applier.SmokeEnv.Unordered.{assigned, env_find-smoke_env}
use familiar_fleet.Base.{
  List, ◌++◌, sym, subst, ◌∙◌, ◌==◌, eq_iff, ◌≡◌, ◌≢◌, ◌↔◌, refl, inl, inr, true, false, none, some,
  [], ◌∷◌, Text, codes, text_eq, texts_eq, pos, arith,
}
use familiar_fleet.Text.{fields, split}
use familiar_fleet.Text.Json.{json_text, json_onto, rune_length}
use familiar_fleet.FilePath.{clean, join, dir, base}
use familiar_fleet.Host.{
  directory, put, remove, names_under, World, lookup, symlink, ok, crash, resume, put,
  AppliedRecord, regular, applied, stat, lstat, readlink, read_file, read_dir, mkdir_all, make_temp,
  fill_temp, rename_temp, remove_temp, remove_file, no_op, run_leaving, run_output, finally,
  attempt, map_err, perform, ◌>>=◌,
}
use familiar_fleet.Descriptor
use familiar_fleet.Descriptor.{RuntimeDescriptor}
use familiar_fleet.Descriptor.Laws.{NamesCommit, validate_iff}
use familiar_fleet.Store.{
  current, previous, activate, rollback, replace_symlink, validate, pointer, repoint, activate_from,
  applied_path,
}
use familiar_fleet.Store.Paths.{root_of}
use familiar_fleet.Store.Reads.{IsRuntime}
use familiar_fleet.Store.Activation.{Pointers, activate-Moved}
use familiar_fleet.Store.Rollback.{
  Ends, rollback-RolledBack, activate_crash_window, between_renames,
}
use familiar_fleet.Store.GcRoots.{
  is_store_path, prune_gc_roots, keep_set, prune_listed, prune_each, prune_one, register_gc_root,
  create_root,
}
use familiar_fleet.Store.GcRoots.Prune.{Names, prune_gc_roots_keeps, prune_gc_roots_removes}
use familiar_fleet.Store.Provenance.{record_applied_runtime, owner_only, read_applied}
use familiar_fleet.Applier.{
  apply, apply_unless, satisfied_by, commit, vet, retain, smoke, build, RuntimeApplyResult,
}
use familiar_fleet.Applier.Safety.{Activated, apply-Activated}
use familiar_fleet.Applier.Satisfied.{Satisfied}
use familiar_fleet.Applier.TrueUp.{TruedUp, true_up-TruedUp}
use familiar_fleet.Applier.{true_up}
use familiar_fleet.Applier.Convergence.{apply_again}
use familiar_fleet.Examples.Machine.{
  clean_new, links_differ, current_is, previous_is, gc_roots_is, old_root_is, stray_root_is,
  old_runtime, new_runtime, stray, files, store, world, tools, applier, new_runtime-IsRuntime,
  link_of, dir_of,
}

apply-Activated_example :
    Activated tools applier world (apply tools applier (codes "github:x#y") (resume world [])).1
apply-Activated_example = apply-Activated tools applier (codes "github:x#y") (resume world [])

activate-Moved_example :
    Pointers store (clean new_runtime) world (activate store new_runtime world) world
activate-Moved_example = activate-Moved store new_runtime world

rollback-RolledBack_example : Ends store (rollback store world) world
rollback-RolledBack_example = rollback-RolledBack store world

abbrev pub new_record : AppliedRecord
new_record = record { installable = codes "github:x#y"; target = new_runtime }

prune_gc_roots_keeps_example :
    lookup (root_of store (codes "a-old")) (prune_gc_roots store world).1.entries
    ≡ some (symlink old_runtime)
prune_gc_roots_keeps_example =
    prune_gc_roots_keeps store world (codes "a-old") old_runtime (inl current_is) old_root_is

prunes : (prune_gc_roots store world).0 ≡ ok tt
unfolding prune_gc_roots keep_set prune_listed prune_each prune_one read_dir remove_file pointer
    lstat readlink attempt map_err perform lookup remove names_under ◌>>=◌
prunes = refl

stray_unnamed : ¬ Names store world stray
stray_unnamed (inl h) = links_differ old_runtime stray refl (sym current_is ∙ h)
stray_unnamed (inr h) = links_differ old_runtime stray refl (sym previous_is ∙ h)

prune_gc_roots_removes_example :
    lookup (root_of store (codes "d-stray")) (prune_gc_roots store world).1.entries ≡ none
prune_gc_roots_removes_example =
    prune_gc_roots_removes store world (codes "d-stray") stray prunes gc_roots_is stray_root_is
      stray_unnamed

cleaned : IsRuntime files (clean new_runtime)
cleaned = subst (IsRuntime files) (sym clean_new) new_runtime-IsRuntime

old_differs : (old_runtime == clean new_runtime) ≡ false
unfolding clean
old_differs = refl

ne_of_eq_false : (a b : Text) → (a == b) ≡ false → a ≢ b
ne_of_eq_false a b h = ground (arith, eq_iff a b)

-- `previous` names another runtime than `current`.
abbrev pub two_runtimes : World
two_runtimes = record world {
  entries =
      dir_of store.dir ∷ link_of (current store) old_runtime ∷ link_of (previous store) stray ∷ [];
}

dir_is_there : lookup store.dir two_runtimes.entries ≡ some directory
unfolding lookup
dir_is_there = refl

current_is_old : lookup (current store) two_runtimes.entries ≡ some (symlink old_runtime)
unfolding lookup
current_is_old = refl

previous_is_stray : lookup (previous store) two_runtimes.entries ≡ some (symlink stray)
unfolding lookup
previous_is_stray = refl

activate_crash_window_example :
    let left = activate store new_runtime (resume two_runtimes between_renames) in
    (left.0 ≡ crash)
    × (lookup (current store) left.1.entries ≡ some (symlink old_runtime))
    × (lookup (previous store) left.1.entries ≡ some (symlink old_runtime))
    × (lookup (current store) left.1.entries ≢ some (symlink stray))
    × (lookup (previous store) left.1.entries ≢ some (symlink stray))
activate_crash_window_example =
    activate_crash_window store new_runtime old_runtime stray two_runtimes cleaned refl
      (ne_of_eq_false old_runtime (clean new_runtime) old_differs)
      (ne_of_eq_false stray old_runtime refl) dir_is_there current_is_old previous_is_stray

abbrev pub converged : World
converged = record {
  outside = files;
  entries =
      dir_of store.dir
      ∷ link_of (current store) new_runtime
      ∷ (applied_path store, regular owner_only (applied new_record))
      ∷ [];
  temps = [];
  schedule = [];
}

converged-Satisfied : Satisfied applier new_record.installable new_runtime converged
unfolding lookup
converged-Satisfied = record {
  mode = owner_only;
  recorded = refl;
  active = refl;
  runtime = new_runtime-IsRuntime;
}

named : new_record.installable ≢ []
named = ne_of_eq_false new_record.installable [] refl

satisfied_now :
    (satisfied_by tools applier new_record.installable converged).0 ≡ ok (some new_runtime)
unfolding satisfied_by read_applied read_file pointer lstat readlink validate stat attempt map_err
    perform lookup join clean ◌>>=◌
satisfied_now = refl

abbrev pub first_result : RuntimeApplyResult
first_result = record { target = new_runtime; changed = true; skipped = false }

first_apply : (apply tools applier new_record.installable world).0 ≡ ok first_result
unfolding apply apply_unless satisfied_by build smoke retain vet commit read_applied
    record_applied_runtime json_text json_onto rune_length prune_gc_roots keep_set prune_listed
    prune_each prune_one register_gc_root create_root is_store_path read_dir remove_file read_file
    no_op run_leaving run_output fields split activate activate_from repoint replace_symlink
    validate pointer lstat stat readlink mkdir_all make_temp fill_temp rename_temp remove_temp
    finally attempt map_err perform lookup put remove names_under join clean dir base ◌>>=◌
first_apply = refl

is_plain : json_text new_record.installable ≡ new_record.installable
unfolding json_text json_onto rune_length
is_plain = refl

target_is_plain : json_text first_result.target ≡ first_result.target
unfolding json_text json_onto rune_length
target_is_plain = refl

apply_again_example :
    apply tools applier new_record.installable
      (resume (apply tools applier new_record.installable world).1 [])
    ≡ (
      ok (record { target = new_runtime; changed = false; skipped = true }),
      resume (apply tools applier new_record.installable world).1 [],
    )
apply_again_example =
    apply_again tools applier new_record.installable is_plain world first_result named clean_new
      target_is_plain first_apply

abbrev pub descriptor : RuntimeDescriptor
descriptor = record {
  schema = pos 1;
  installable =
      codes
        "github:gisikw/familiar/0123456789abcdef0123456789abcdef01234567#familiar-worker-runtime";
}

validate_iff_example :
    (Descriptor.validate descriptor ≡ none)
    ↔ ((descriptor.schema ≡ pos 1) × NamesCommit descriptor.installable)
validate_iff_example = validate_iff descriptor

true_up-TruedUp_example :
    TruedUp tools applier descriptor world (true_up tools applier descriptor world).1
true_up-TruedUp_example = true_up-TruedUp tools applier descriptor world

abbrev pub smoke_map : List (Text × Text)
smoke_map = smoke_overrides new_runtime (codes "/bin") (codes "/tmp/token")

-- The map is gone through from the router on.
abbrev pub shuffled : List (Text × Text)
shuffled =
    (codes "FAMILIAR_TIAMAT_URL", codes "http://127.0.0.1")
    ∷ (codes "PATH", join (new_runtime ∷ codes "bin" ∷ []) ++ codes ":/bin")
    ∷ (codes "FAMILIAR_TIAMAT_TOKEN_FILE", codes "/tmp/token")
    ∷ []

shuffled-Perm : Perm smoke_map shuffled
unfolding smoke_overrides
shuffled-Perm = ∣ Permᴰ.swap refl refl ∣₁

env_find-smoke_env_example :
    env_find (smoke_env (codes "PATH=/bin" ∷ codes "HOME=/home/ada" ∷ []) shuffled) (codes "PATH")
    ≡ first_some
        (assigned smoke_map (codes "PATH"))
        (env_find (codes "PATH=/bin" ∷ codes "HOME=/home/ada" ∷ []) (codes "PATH"))
env_find-smoke_env_example =
    env_find-smoke_env (codes "PATH=/bin" ∷ codes "HOME=/home/ada" ∷ []) new_runtime (codes "/bin")
      (codes "/tmp/token") shuffled shuffled-Perm (codes "PATH")
