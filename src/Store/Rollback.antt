-- ===== src/Store/Rollback.antt =====
-- Rolling back: which pointers move, and the window in which a crash forgets a runtime.
use familiar_fleet.Base.{
  sym, ◌∙◌, Option, ◌≡◌, ◌≢◌, ◌⊎◌, inl, inr, refl, true, false, some, List, [], ◌∷◌, Text, eq_iff,
  text_eq, texts_eq, arith,
}
use familiar_fleet.FilePath.{clean, is_abs}
use familiar_fleet.Host.{
  World, Outcome, ok, err, crash, Entry, symlink, lookup, lookup-put, map_err, wrap,
  refusing_rollback, blame, continue, Verdict, grant, kill, stat, lstat, readlink, mkdir_all,
  make_temp, fill_temp, rename_temp, remove_temp, finally, attempt, perform, directory, ◌>>=◌,
}
use familiar_fleet.Host.{resume}
use familiar_fleet.Store.Paths.{previous-ne-current}
use familiar_fleet.Store.{
  Store, current, previous, previous_name, validate, pointer, repoint, activate_from, activate,
  replace_symlink, rollback, nothing_before,
}
use familiar_fleet.Store.Reads.{
  SameFiles, validate-SameFiles, pointer-SameFiles, pointer-Pointed, IsRuntime,
}
use familiar_fleet.Store.Activation.{activate-Moved, displaced, Moved}

-- The two pointers before and after a rollback, by its outcome.
abbrev pub RolledBack : Outcome Text → (cur prev cur' prev' : Option Entry) → Type 0
RolledBack (ok t) cur prev cur' prev' =
    (prev ≡ some (symlink t))
    × (cur' ≡ some (symlink (clean t)))
    × ((prev' ≡ displaced cur prev) ⊎ ((cur' ≡ cur) × (prev' ≡ prev)))
RolledBack (err _) cur prev cur' prev' =
    (cur' ≡ cur) × ((prev' ≡ prev) ⊎ (prev' ≡ displaced cur prev))
RolledBack crash cur prev cur' prev' =
    ((cur' ≡ cur) × ((prev' ≡ prev) ⊎ (prev' ≡ displaced cur prev)))
    ⊎ ((t : Text) × (prev ≡ some (symlink t))
        × (cur' ≡ some (symlink (clean t)))
        × (prev' ≡ displaced cur prev))

module _ (s : Store) where
  abbrev pub Ends : Outcome Text × World → World → Type 0
  Ends (o, w') v =
      RolledBack o (lookup (current s) v.entries) (lookup (previous s) v.entries)
        (lookup (current s) w'.entries) (lookup (previous s) w'.entries)

  rollback_activate :
      (t : Text) (w : World)
      → lookup (previous s) w.entries ≡ some (symlink t)
      → Ends ((activate s t >>= λ _. λ v. (ok t, v)) w) w
  unfolding ◌>>=◌
  rollback_activate t w h = by_outcome (activate s t w).0 (activate-Moved s t w)
    where
      by_outcome :
          (o : Outcome _)
          → Moved
              (clean t)
              o
              (lookup (current s) w.entries)
              (lookup (previous s) w.entries)
              (lookup (current s) (activate s t w).1.entries)
              (lookup (previous s) (activate s t w).1.entries)
          → Ends (continue o (λ _. λ v. (ok t, v)) (activate s t w).1) w
      by_outcome (ok true) m = (h, m.0, inl m.1)
      by_outcome (ok false) m = (h, m.1 ∙ m.0, inr (m.1, m.2))
      by_outcome (err e) m = m
      by_outcome crash (inl m) = inl m
      by_outcome crash (inr m) = inr (t, h, m.0, m.1)

  rollback_validated :
      (t : Text) (w : World) (o : Outcome (Unit {0}))
      → (w' : World) → SameFiles w w'
      → lookup (previous s) w.entries ≡ some (symlink t)
      → Ends (continue o (λ _. activate s t >>= λ _. λ v. (ok t, v)) w') w
  rollback_validated t w (ok u) w' same h = ground (arith, same, rollback_activate t w')
  rollback_validated t w (err e) w' same h = ground (arith, same)
  rollback_validated t w crash w' same h = ground (arith, same)

  rollback_pointed :
      (o : Outcome Text) (w w' : World)
      → SameFiles w w'
      → ((t : Text) → o ≡ ok t → lookup (previous s) w.entries ≡ some (symlink t))
      → Ends
          (continue o
            (λ t. map_err (wrap refusing_rollback) (validate t) >>= λ _.
              activate s t >>= λ _. λ v. (ok t, v))
            w')
          w
  unfolding ◌>>=◌ map_err
  rollback_pointed (ok t) w w' same h = ground (
    arith,
    same,
    validate-SameFiles t w',
    h t refl,
    rollback_validated t w (blame (wrap refusing_rollback) (validate t w').0) (validate t w').1,
  )
  rollback_pointed (err e) w w' same h = ground (arith, same)
  rollback_pointed crash w w' same h = ground (arith, same)

  -- At every outcome and for every schedule: success points `current` at the cleaned target of
  -- `previous`, and `previous` at what was current unless the two were one already; an error
  -- leaves `current`; a crash leaves one of the states in between.
  pub rollback-RolledBack : (w : World) → Ends (rollback s w) w
  unfolding rollback ◌>>=◌ map_err
  rollback-RolledBack w =
      rollback_pointed (blame nothing_before (pointer s previous_name w).0) w
        (pointer s previous_name w).1 (pointer-SameFiles s previous_name w)
        (λ t e. ground (arith, e, pointer-Pointed s previous_name w))

-- A schedule that grants the first calls of an activation and kills the process before it reads
-- the old `current` link a second time: between the two renames.
abbrev pub between_renames : List Verdict
between_renames =
    grant ∷ grant ∷ grant ∷ grant ∷ grant ∷ grant ∷ grant ∷ grant ∷ grant ∷ grant ∷ kill ∷ []

link_target : {a b : Text} → some (symlink a) ≡ some (symlink b) → a ≡ b
link_target h = ground (arith, h)

-- What the crash leaves of the pointers.
crash_links :
    (s : Store) (given old before : Text) (w : World)
    → IsRuntime w.outside (clean given)
    → is_abs old ≡ true
    → old ≢ clean given
    → lookup s.dir w.entries ≡ some directory
    → lookup (current s) w.entries ≡ some (symlink old)
    → lookup (previous s) w.entries ≡ some (symlink before)
    → ((activate s given (resume w between_renames)).0 ≡ crash)
      × (lookup (current s) (activate s given (resume w between_renames)).1.entries
          ≡ some (symlink old))
      × (lookup (previous s) (activate s given (resume w between_renames)).1.entries
          ≡ some (symlink old))
unfolding activate activate_from repoint replace_symlink validate pointer lstat stat readlink
    mkdir_all make_temp fill_temp rename_temp remove_temp finally attempt map_err perform ◌>>=◌
crash_links s given old before w r absolute fresh made now was = ground (
  arith,
  r.absolute,
  r.safe,
  r.root_found,
  r.root_is,
  r.tool_found,
  r.tool_is,
  eq_iff old (clean given),
  eq_iff old [],
  previous-ne-current s,
  eq_iff (previous s) (previous s),
  lookup-put (previous s) (current s) (symlink old) w.entries,
  lookup-put (previous s) (previous s) (symlink old) w.entries,
)

-- When a new runtime is activated, while `current` and `previous` name two different runtimes, and the
-- process dies between the two renames, `previous` has been overwritten by the runtime that is still
-- current: the runtime that was previous is in neither pointer.
pub activate_crash_window :
    (s : Store) (given old before : Text) (w : World)
    → IsRuntime w.outside (clean given)
    → is_abs old ≡ true
    → old ≢ clean given
    → before ≢ old
    → lookup s.dir w.entries ≡ some directory
    → lookup (current s) w.entries ≡ some (symlink old)
    → lookup (previous s) w.entries ≡ some (symlink before)
    → let left = activate s given (resume w between_renames) in
      (left.0 ≡ crash)
      × (lookup (current s) left.1.entries ≡ some (symlink old))
      × (lookup (previous s) left.1.entries ≡ some (symlink old))
      × (lookup (current s) left.1.entries ≢ some (symlink before))
      × (lookup (previous s) left.1.entries ≢ some (symlink before))
activate_crash_window s given old before w r absolute fresh apart made now was =
    let (crashed, in_current, in_previous) =
      crash_links s given old before w r absolute fresh made now was in
    (
      crashed,
      in_current,
      in_previous,
      λ h. apart (link_target (sym h ∙ in_current)),
      λ h. apart (link_target (sym h ∙ in_previous)),
    )
