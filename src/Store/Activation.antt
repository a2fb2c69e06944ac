-- ===== src/Store/Activation.antt =====
-- Activating a runtime, at every outcome: which pointers move, and that no runtime is lost.
use familiar_fleet.Base.{
  some, none, Option, ◌≡◌, ◌≢◌, ◌⊎◌, Bool, true, false, [], ◌∷◌, Text, eq_iff, text_eq, texts_eq,
  ◌==◌, if◌then◌else◌, arith,
}
use familiar_fleet.FilePath.{clean}
use familiar_fleet.Host.{
  continue, settle, attempt, directory, lookup-put, perform, Entry, mkdir_all, lookup, World,
  Entries, symlink, put, FilePath, Outcome, ok, err, crash, map_err, ◌>>=◌,
}
use familiar_fleet.Store.{
  validate, activate, validate, clean, activate, pointer, activate_from, Store, current, previous,
  current_name, previous_name, replace_symlink, repoint,
}
use familiar_fleet.Store.Paths.{current-ne-previous, previous-ne-current, dir-ne-in_store}
use familiar_fleet.Store.Reads.{validate-SameFiles, pointer-SameFiles, pointer-Pointed, Pointed}
use familiar_fleet.Store.Replace.{replace_symlink_atomic}

abbrev pub set_current : Store → Text → Entries → Entries
set_current s target es = put (current s) (symlink target) es

abbrev pub set_previous : Store → Text → Entries → Entries
set_previous s old es = if old == [] then es else put (previous s) (symlink old) es

-- The entries before and after the two writes of `Activate`.
abbrev pub Repointed : Store → Text → Text → Outcome Bool → World → World → Type 0
Repointed s old target (ok b) w w' =
    (b ≡ true) × (w'.entries ≡ set_current s target (set_previous s old w.entries))
Repointed s old target (err _) w w' =
    (w'.entries ≡ w.entries) ⊎ (w'.entries ≡ set_previous s old w.entries)
Repointed s old target crash w w' =
    (w'.entries ≡ w.entries)
    ⊎ (w'.entries ≡ set_previous s old w.entries)
    ⊎ (w'.entries ≡ set_current s target (set_previous s old w.entries))

pub repoint_lem :
    (s : Store) (old target : Text) (w : World)
    → Repointed s old target (repoint s old target w).0 w (repoint s old target w).1
unfolding repoint map_err ◌>>=◌
repoint_lem s [] target w = ground (arith, replace_symlink_atomic (current s) target w)
repoint_lem s (c ∷ old) target w = ground (
  arith,
  replace_symlink_atomic (previous s) (c ∷ old) w,
  replace_symlink_atomic (current s) target (replace_symlink (previous s) (c ∷ old) w).1,
)

pub lookup-mkdir_all :
    (d p : FilePath) (w : World)
    → (d == p) ≡ false
    → lookup p (mkdir_all d w).1.entries ≡ lookup p w.entries
unfolding mkdir_all perform
lookup-mkdir_all d p w h = ground (arith, lookup-put d p directory w.entries)

pub outside-mkdir_all : (d : FilePath) (w : World) → (mkdir_all d w).1.outside ≡ w.outside
unfolding mkdir_all perform
outside-mkdir_all d w = ground arith

-- `previous` after an activation: the runtime that was current, if there was one.
abbrev pub displaced : Option Entry → Option Entry → Option Entry
displaced none before = before
displaced (some x) before = some x

-- The two pointers before and after an activation, by its outcome.
abbrev pub Moved : Text → Outcome Bool → (cur prev cur' prev' : Option Entry) → Type 0
Moved target (ok true) cur prev cur' prev' =
    (cur' ≡ some (symlink target)) × (prev' ≡ displaced cur prev)
Moved target (ok false) cur prev cur' prev' =
    (cur ≡ some (symlink target)) × (cur' ≡ cur) × (prev' ≡ prev)
Moved target (err _) cur prev cur' prev' =
    (cur' ≡ cur) × ((prev' ≡ prev) ⊎ (prev' ≡ displaced cur prev))
Moved target crash cur prev cur' prev' =
    ((cur' ≡ cur) × ((prev' ≡ prev) ⊎ (prev' ≡ displaced cur prev)))
    ⊎ ((cur' ≡ some (symlink target)) × (prev' ≡ displaced cur prev))

module _ (s : Store) (target : Text) (w : World) where
  abbrev pub Pointers : Outcome Bool × World → World → Type 0
  Pointers (o, w') v =
      Moved target o (lookup (current s) v.entries) (lookup (previous s) v.entries)
        (lookup (current s) w'.entries) (lookup (previous s) w'.entries)

  repoint-none-Moved : lookup (current s) w.entries ≡ none → Pointers (repoint s [] target w) w
  repoint-none-Moved h = ground (
    arith,
    repoint_lem s [] target w,
    current-ne-previous s,
    eq_iff (current s) (current s),
    lookup-put (current s) (current s) (symlink target) w.entries,
    lookup-put (current s) (previous s) (symlink target) w.entries,
  )

  repoint-some-Moved :
      (old : Text)
      → old ≢ []
      → lookup (current s) w.entries ≡ some (symlink old)
      → Pointers (repoint s old target w) w
  repoint-some-Moved old ne h = ground (
    arith,
    repoint_lem s old target w,
    eq_iff old [],
    current-ne-previous s,
    previous-ne-current s,
    eq_iff (current s) (current s),
    eq_iff (previous s) (previous s),
    lookup-put (current s) (current s) (symlink target) (set_previous s old w.entries),
    lookup-put (current s) (previous s) (symlink target) (set_previous s old w.entries),
    lookup-put (previous s) (current s) (symlink old) w.entries,
    lookup-put (previous s) (previous s) (symlink old) w.entries,
  )

  activate_from-Moved :
      (o : Outcome Text)
      → Pointed s current_name w o w
      → Pointers (continue (settle o) (activate_from s target) w) w
  unfolding activate_from
  activate_from-Moved (ok []) (h, k) = cc
  activate_from-Moved (ok (c ∷ t)) (h, k) =
      ground (arith, eq_iff (c ∷ t) target, repoint-some-Moved (c ∷ t) (cc) h)
  activate_from-Moved (err e) h = ground (arith, h, repoint-none-Moved)
  activate_from-Moved crash h = ground arith

-- `Activate` at every outcome and for every schedule. Success with a change: `current` is the
-- cleaned target, and `previous` what `current` named, or as before if it named nothing. Success
-- without: `current` was the cleaned target, and neither differs. An error leaves `current`, and
-- `previous` is as before or names what is current. A crash leaves the state before, one with only
-- `previous` written, or the state after.
pub activate-Moved :
    (s : Store) (given : Text) (w : World) → Pointers s (clean given) w (activate s given w) w
unfolding activate attempt ◌>>=◌
activate-Moved s given w =
    let target = clean given in
    let w₁ = (validate target w).1 in
    let w₂ = (mkdir_all s.dir w₁).1 in
    let w₃ = (pointer s current_name w₂).1 in
    ground (
      arith,
      validate-SameFiles target w,
      lookup-mkdir_all s.dir (current s) w₁ (dir-ne-in_store s current_name),
      lookup-mkdir_all s.dir (previous s) w₁ (dir-ne-in_store s previous_name),
      pointer-SameFiles s current_name w₂,
      pointer-Pointed s current_name w₂,
      activate_from-Moved s target w₃ (pointer s current_name w₂).0,
    )
