-- ===== src/Store/Reads.antt =====
-- What validating a runtime and reading a pointer tell about the files; neither changes one.
use familiar_fleet.Base.{
  false, inr, inl, Option, [], Option-cases, ◌≡◌, true, none, some, Text, arith,
}
use familiar_fleet.Host.{
  Info, Outcome, crash, World, symlink, lookup, ok, err, is_no_runtime, lstat, readlink, stat,
  perform, map_err, ◌>>=◌,
}
use familiar_fleet.FilePath.{is_abs}
use familiar_fleet.Store.{
  is_executable, is_directory, tool_of, is_unsafe, Store, in_store, pointer, validate,
}

-- Two worlds with the same files, inside and outside the state directory.
pub record SameFiles (w w' : World) : Type 0 where
  pub entries : w'.entries ≡ w.entries
  pub outside : w'.outside ≡ w.outside

module _ (s : Store) (name : Text) (w : World) where
  pub pointer-SameFiles : SameFiles w (pointer s name w).1
  unfolding pointer lstat readlink perform map_err ◌>>=◌
  pointer-SameFiles = ground arith

  -- What the outcome of a read tells about the entry.
  abbrev pub Pointed : Outcome Text → World → Type 0
  Pointed (ok t) v = (lookup (in_store s name) v.entries ≡ some (symlink t)) × (is_abs t ≡ true)
  Pointed (err e) v = is_no_runtime e ≡ true → lookup (in_store s name) v.entries ≡ none
  Pointed crash v = Unit

  pub pointer-Pointed : Pointed (pointer s name w).0 w
  unfolding pointer lstat readlink perform map_err ◌>>=◌
  pointer-Pointed = ground arith

module _ (target : Text) (w : World) where
  pub validate-SameFiles : SameFiles w (validate target w).1
  unfolding validate stat perform map_err ◌>>=◌
  validate-SameFiles = ground arith

-- A runtime that may be activated, by what `stat` finds outside the state directory.
pub record IsRuntime (outside : Text → Option Info) (target : Text) : Type 0 where
  pub root : Info
  pub tool : Info
  pub absolute : is_abs target ≡ true
  pub safe : is_unsafe target ≡ false
  pub root_found : outside target ≡ some root
  pub root_is : is_directory root ≡ true
  pub tool_found : outside (tool_of target) ≡ some tool
  pub tool_is : is_executable tool ≡ true

module _ (target : Text) (w : World) where
  -- Validation succeeds only on a runtime.
  pub validate_sound : {u : Unit {0}} → (validate target w).0 ≡ ok u → IsRuntime w.outside target
  unfolding validate stat perform map_err ◌>>=◌
  validate_sound h = elim (Option-cases (w.outside target)) [
    | inl e ↦ absurd (ground arith)
    | inr (root, e) ↦ elim (Option-cases (w.outside (tool_of target))) [
      | inl f ↦ absurd (ground arith)
      | inr (tool, f) ↦ record {
        root = root;
        tool = tool;
        absolute = ground arith;
        safe = ground arith;
        root_found = e;
        root_is = ground arith;
        tool_found = f;
        tool_is = ground arith;
      }
    ]
  ]

  -- It succeeds on a runtime when no system call fails.
  pub validate_complete :
      w.schedule ≡ [] → IsRuntime w.outside target → (validate target w).0 ≡ ok tt
  unfolding validate stat perform map_err ◌>>=◌
  validate_complete quiet r =
      ground (arith, r.absolute, r.safe, r.root_found, r.root_is, r.tool_found, r.tool_is)
