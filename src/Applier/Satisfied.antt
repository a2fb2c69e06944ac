-- ===== src/Applier/Satisfied.antt =====
-- The cheap path of `Apply`: when the active runtime is known to be the right one.
use familiar_fleet.Base.{
  ap, sym, subst, ◌∙◌, ◌≡◌, ◌≢◌, inl, inr, refl, Bool-cases, Option, none, some, [], Text, eq_iff,
  text_eq, texts_eq, ◌==◌, arith, ℕ,
}
use familiar_fleet.Host.{
  resume, lstat, readlink, stat, World, Outcome, ok, err, crash, pure, Entry, directory, regular,
  raw, applied, AppliedRecord, symlink, lookup, map_err, attempt, continue, settle, ◌>>=◌,
  read_file, perform,
}
use familiar_fleet.Store.{Store, current, applied_path, pointer, current_name, validate}
use familiar_fleet.Store.Reads.{
  SameFiles, pointer-SameFiles, pointer-Pointed, validate-SameFiles, validate_sound, IsRuntime,
}
use familiar_fleet.Store.Provenance.{read_applied}
use familiar_fleet.Applier.{
  Tools, RuntimeApplier, satisfied_by, check_record, check_current, valid_or_none,
}

module _ (a : RuntimeApplier) where
  -- What a satisfied descriptor rests on: the recorded target is current, and still a runtime.
  pub record Satisfied (installable target : Text) (w : World) : Type 0 where
    pub mode : ℕ
    pub recorded :
        lookup (applied_path a.store) w.entries
        ≡ some (regular mode (applied (record { installable = installable; target = target })))
    pub active : lookup (current a.store) w.entries ≡ some (symlink target)
    pub runtime : IsRuntime w.outside target

module _ (s : Store) (w : World) where
  read_applied-SameFiles : SameFiles w (read_applied s w).1
  unfolding read_applied read_file attempt perform ◌>>=◌
  read_applied-SameFiles = ground arith

  read_applied-some :
      {r : AppliedRecord}
      → (read_applied s w).0 ≡ ok (some r)
      → (m : ℕ) × (lookup (applied_path s) w.entries ≡ some (regular m (applied r)))
  unfolding read_applied read_file attempt perform ◌>>=◌
  read_applied-some {r} h = by_entry (lookup (applied_path s) w.entries) refl
    where
      by_entry :
          (o : Option Entry)
          → lookup (applied_path s) w.entries ≡ o
          → (m : ℕ) × (lookup (applied_path s) w.entries ≡ some (regular m (applied r)))
      by_entry none e = absurd (ground arith)
      by_entry (some directory) e = absurd (ground arith)
      by_entry (some (symlink t)) e = absurd (ground arith)
      by_entry (some (regular m (raw t))) e = absurd (ground arith)
      by_entry (some (regular m (applied q))) e = (m, ground arith)

module _ (tools : Tools) (a : RuntimeApplier) where
  check_current-SameFiles :
      (target : Text) (o : Outcome Text) (w : World)
      → SameFiles w (continue (settle o) (check_current tools a target) w).1
  unfolding attempt ◌>>=◌
  check_current-SameFiles target (ok t) w = ground (arith, validate-SameFiles t w)
  check_current-SameFiles target (err e) w = ground arith
  check_current-SameFiles target crash w = ground arith

  check_record-SameFiles :
      (installable : Text) (o : Option AppliedRecord) (w : World)
      → SameFiles w (check_record tools a installable o w).1
  unfolding attempt ◌>>=◌
  check_record-SameFiles installable none w = ground arith
  check_record-SameFiles installable (some r) w =
      let p = pointer a.store current_name w in
      ground
        (arith, pointer-SameFiles a.store current_name w, check_current-SameFiles r.target p.0 p.1)

  pub satisfied_by-SameFiles :
      (installable : Text) (w : World) → SameFiles w (satisfied_by tools a installable w).1
  unfolding satisfied_by ◌>>=◌
  satisfied_by-SameFiles installable w =
      by_outcome (read_applied a.store w).0 (read_applied a.store w).1
        (read_applied-SameFiles a.store w)
    where
      by_outcome :
          (o : Outcome (Option AppliedRecord)) (v : World)
          → SameFiles w v
          → SameFiles w (continue o (check_record tools a installable) v).1
      by_outcome (ok r) v same = ground (arith, check_record-SameFiles installable r v)
      by_outcome (err e) v same = ground arith
      by_outcome crash v same = ground arith

  validated_of_valid :
      (c : Text) (w : World) {t : Text}
      → ((attempt (validate c) >>= λ r. pure (valid_or_none tools a c r)) w).0 ≡ ok (some t)
      → (c ≡ t) × ((validate c w).0 ≡ ok tt)
  unfolding attempt ◌>>=◌
  validated_of_valid c w {t} h = by_outcome (validate c w).0 refl
    where
      by_outcome :
          (o : Outcome (Unit {0})) → (validate c w).0 ≡ o → (c ≡ t) × ((validate c w).0 ≡ ok tt)
      by_outcome (ok u) e = (ground arith, ground arith)
      by_outcome (err x) e = absurd (ground arith)
      by_outcome crash e = absurd (ground arith)

  check_current_sound :
      (target : Text) (o : Outcome Text) (w : World) {t : Text}
      → (continue (settle o) (check_current tools a target) w).0 ≡ ok (some t)
      → (o ≡ ok t) × (target ≡ t) × IsRuntime w.outside t
  check_current_sound target (ok c) w h = elim (Bool-cases (c == target)) [
    | inl e ↦
        let (same, valid) = validated_of_valid c w (ground (arith, e)) in
        (
          ap ok same,
          sym ((eq_iff c target).0 e) ∙ same,
          subst (IsRuntime w.outside) same (validate_sound c w valid),
        )
    | inr e ↦ absurd (ground (arith, e))
  ]
  check_current_sound target (err x) w h = absurd (ground arith)
  check_current_sound target crash w h = absurd (ground arith)

  check_record_sound :
      (installable : Text) (r : AppliedRecord) (w : World) {t : Text}
      → (check_record tools a installable (some r) w).0 ≡ ok (some t)
      → (r.installable ≡ installable)
        × (r.target ≡ t)
        × (lookup (current a.store) w.entries ≡ some (symlink t))
        × IsRuntime w.outside t
  unfolding attempt ◌>>=◌
  check_record_sound installable r w {t} h = elim (Bool-cases (r.installable == installable)) [
    | inl e ↦
        let p = pointer a.store current_name w in
        let (found, same, runtime) = check_current_sound r.target p.0 p.1 (ground (arith, e)) in
        (
          (eq_iff r.installable installable).0 e,
          same,
          ground (arith, found, pointer-Pointed a.store current_name w),
          subst (λ o. IsRuntime o t) (pointer-SameFiles a.store current_name w).outside runtime,
        )
    | inr e ↦ absurd (ground (arith, e))
  ]

  -- `satisfiedBy` returns a target only where the record on disk says that the installable was
  -- realised as that target, `current` points at it, and it is a runtime.
  pub satisfied_by_sound :
      (installable : Text) (w : World) {t : Text}
      → (satisfied_by tools a installable w).0 ≡ ok (some t)
      → Satisfied a installable t w
  unfolding satisfied_by ◌>>=◌
  satisfied_by_sound installable w {t} h = by_outcome (read_applied a.store w).0 refl
    where
      by_outcome :
          (o : Outcome (Option AppliedRecord))
          → (read_applied a.store w).0 ≡ o
          → Satisfied a installable t w
      by_outcome (ok (some r)) e =
          let v = (read_applied a.store w).1 in
          let same = read_applied-SameFiles a.store w in
          let (m, recorded) = read_applied-some a.store w e in
          let (named, aimed, active, runtime) =
            check_record_sound installable r v (ground (arith, e)) in
          record {
            mode = m;
            recorded = ground (arith, recorded, named, aimed);
            active = ground (arith, active, same);
            runtime = subst (λ o. IsRuntime o t) same.outside runtime;
          }
      by_outcome (ok none) e = absurd (ground (arith, e))
      by_outcome (err x) e = absurd (ground (arith, e))
      by_outcome crash e = absurd (ground (arith, e))

  -- Where the record on disk says that an installable that is not empty was realised as a target,
  -- `current` points at that target, it is a runtime, and no system call fails, `satisfiedBy`
  -- returns the target and changes nothing.
  pub satisfied_by_complete :
      (installable target : Text) (w : World)
      → installable ≢ []
      → Satisfied a installable target w
      → satisfied_by tools a installable (resume w []) ≡ (ok (some target), resume w [])
  unfolding satisfied_by read_applied read_file pointer lstat readlink validate stat attempt map_err
      perform ◌>>=◌
  satisfied_by_complete installable target w ne s = ground (
    arith,
    s.recorded,
    s.active,
    s.runtime.absolute,
    s.runtime.safe,
    s.runtime.root_found,
    s.runtime.root_is,
    s.runtime.tool_found,
    s.runtime.tool_is,
    eq_iff installable installable,
    eq_iff target target,
    eq_iff installable [],
    eq_iff target [],
  )
