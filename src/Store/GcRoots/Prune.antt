-- ===== src/Store/GcRoots/Prune.antt =====
-- Pruning removes the roots of other runtimes and no root of a kept one.
use familiar_fleet.Base.{
  ◌⊎◌, Bool, true, false, ◌≡◌, ◌≢◌, refl, inl, inr, Bool-cases, none, some, List, [], ◌∷◌, ◌++◌,
  Text, text_eq, texts_eq, eq_iff, ◌==◌, contains, arith,
}
use familiar_fleet.Host.{
  Error, is_not_exist, World, Outcome, ok, err, crash, symlink, directory, lookup, lookup-remove,
  names_under, names_under_complete, readlink, remove_file, read_dir, attempt, map_err, perform,
  continue, settle, ◌>>=◌, FilePath,
}
use familiar_fleet.Host.Inversion.{bind-eq-ok}
use familiar_fleet.Store.Paths.{append-ne, root_of}
use familiar_fleet.Store.{Store, gc_roots, pointer, current, previous, current_name, previous_name}
use familiar_fleet.Store.Reads.{SameFiles, pointer-SameFiles, pointer-Pointed, Pointed}
use familiar_fleet.Store.GcRoots.{
  kept_of, keep_set, prune_one, prune_each, prune_listed, prune_gc_roots,
}

module _ (s : Store) (keep : List Text) where
  -- One round leaves every entry but the root that it looks at, and that one too if it is kept.
  pub prune_one_other :
      (p : FilePath) (name : Text) (w : World)
      → (root_of s name == p) ≡ false
      → lookup p (prune_one s keep name w).1.entries ≡ lookup p w.entries
  unfolding prune_one readlink remove_file map_err perform ◌>>=◌
  prune_one_other p name w h = ground (arith, lookup-remove (root_of s name) p w.entries)

  prune_one_kept :
      (p : FilePath) (name t : Text) (w : World)
      → lookup p w.entries ≡ some (symlink t)
      → contains keep t ≡ true
      → lookup p (prune_one s keep name w).1.entries ≡ some (symlink t)
  unfolding prune_one readlink remove_file map_err perform ◌>>=◌
  prune_one_kept p name t w h k =
      ground (arith, eq_iff (root_of s name) p, lookup-remove (root_of s name) p w.entries)

  prune_one-none :
      (p : FilePath) (name : Text) (w : World)
      → lookup p w.entries ≡ none
      → lookup p (prune_one s keep name w).1.entries ≡ none
  unfolding prune_one readlink remove_file map_err perform ◌>>=◌
  prune_one-none p name w h = ground (arith, lookup-remove (root_of s name) p w.entries)

  prune_one_removed :
      (name t : Text) (w : World) {u : Unit {0}}
      → (prune_one s keep name w).0 ≡ ok u
      → lookup (root_of s name) w.entries ≡ some (symlink t)
      → contains keep t ≡ false
      → lookup (root_of s name) (prune_one s keep name w).1.entries ≡ none
  unfolding prune_one readlink remove_file map_err perform ◌>>=◌
  prune_one_removed name t w o h k = ground (
    arith,
    eq_iff (root_of s name) (root_of s name),
    lookup-remove (root_of s name) (root_of s name) w.entries,
  )

  prune_each_kept :
      (names : List Text) (p : FilePath) (t : Text) (w : World)
      → lookup p w.entries ≡ some (symlink t)
      → contains keep t ≡ true
      → lookup p (prune_each s keep names w).1.entries ≡ some (symlink t)
  unfolding prune_each ◌>>=◌
  prune_each_kept [] p t w h k = h
  prune_each_kept (name ∷ names) p t w h k =
      let w' = (prune_one s keep name w).1 in
      ground (arith, prune_one_kept p name t w h k, prune_each_kept names p t w')

  prune_each-none :
      (names : List Text) (p : FilePath) (w : World)
      → lookup p w.entries ≡ none
      → lookup p (prune_each s keep names w).1.entries ≡ none
  unfolding prune_each ◌>>=◌
  prune_each-none [] p w h = h
  prune_each-none (name ∷ names) p w h =
      let w' = (prune_one s keep name w).1 in
      ground (arith, prune_one-none p name w h, prune_each-none names p w')

  prune_each_removed :
      (names : List Text) (name t : Text) (w : World) {u : Unit {0}}
      → (prune_each s keep names w).0 ≡ ok u
      → contains names name ≡ true
      → lookup (root_of s name) w.entries ≡ some (symlink t)
      → contains keep t ≡ false
      → lookup (root_of s name) (prune_each s keep names w).1.entries ≡ none
  unfolding prune_each ◌>>=◌
  prune_each_removed [] name t w o c h k = cc
  prune_each_removed (first ∷ names) name t w o c h k =
      let w' = (prune_one s keep first w).1 in
      elim (Bool-cases (first == name)) [
        | inl e ↦ ground (
          arith,
          eq_iff first name,
          prune_one_removed name t w,
          prune_each-none names (root_of s name) w',
        )
        | inr e ↦ ground (
          arith,
          prune_one_other (root_of s name) first w (append-ne (gc_roots s) first name e),
          prune_each_removed names name t w',
        )
      ]

module _ (s : Store) (w : World) where
  abbrev pub Names : Text → Type 0
  Names t =
      (lookup (current s) w.entries ≡ some (symlink t))
      ⊎ (lookup (previous s) w.entries ≡ some (symlink t))

  pub keep_set-SameFiles : SameFiles w (keep_set s w).1
  unfolding keep_set attempt ◌>>=◌
  keep_set-SameFiles =
      let w₁ = (pointer s current_name w).1 in
      ground (arith, pointer-SameFiles s current_name w, pointer-SameFiles s previous_name w₁)

  keep_set_has :
      (t : Text) (keep : List Text) → (keep_set s w).0 ≡ ok keep → Names t → contains keep t ≡ true
  unfolding keep_set attempt ◌>>=◌
  keep_set_has t keep o h =
      let w₁ = (pointer s current_name w).1 in
      ground (
        arith,
        eq_iff t t,
        pointer-SameFiles s current_name w,
        pointer-Pointed s current_name w,
        pointer-Pointed s previous_name w₁,
      )

  kept_only :
      (t : Text) (a b : Outcome Text) (w₁ w₂ : World) (keep : List Text)
      → Pointed s current_name w a w
      → Pointed s previous_name w b w
      → (continue
          (settle a)
          (λ r. kept_of r >>= λ c.
            λ v. continue (settle b) (λ q. kept_of q >>= λ p. λ u. (ok (c ++ p), u)) w₂)
          w₁).0
        ≡ ok keep
      → contains keep t ≡ true
      → Names t
  unfolding ◌>>=◌
  kept_only t (ok x) (ok y) w₁ w₂ keep h k o c = ground (arith, eq_iff x t, eq_iff y t)
  kept_only t (ok x) (err y) w₁ w₂ keep h k o c = ground (arith, eq_iff x t)
  kept_only t (err x) (ok y) w₁ w₂ keep h k o c = ground (arith, eq_iff y t)
  kept_only t a b w₁ w₂ keep h k o c = ground arith

  keep_set_only :
      (t : Text) (keep : List Text) → (keep_set s w).0 ≡ ok keep → contains keep t ≡ true → Names t
  unfolding keep_set attempt ◌>>=◌
  keep_set_only t keep o h =
      let w₁ = (pointer s current_name w).1 in
      ground (
        arith,
        pointer-SameFiles s current_name w,
        pointer-Pointed s current_name w,
        pointer-Pointed s previous_name w₁,
        kept_only t (pointer s current_name w).0 (pointer s previous_name w₁).0 w₁
            (pointer s previous_name w₁).1 keep,
      )

  Bool-false_of_ne : (b : Bool) → b ≢ true → b ≡ false
  Bool-false_of_ne true h = absurd (h refl)
  Bool-false_of_ne false h = refl

  pub read_dir-SameFiles : (p : FilePath) (v : World) → SameFiles v (read_dir p v).1
  unfolding read_dir perform
  read_dir-SameFiles p v = ground arith

  read_dir_names :
      (p : FilePath) (v : World) {names : List Text}
      → (read_dir p v).0 ≡ ok names
      → names ≡ names_under p v.entries
  unfolding read_dir perform
  read_dir_names p v h = ground arith

  read_dir_made :
      (p : FilePath) (v : World) {e : Error}
      → lookup p v.entries ≡ some directory
      → (read_dir p v).0 ≡ err e
      → is_not_exist e ≡ false
  unfolding read_dir perform
  read_dir_made p v h k = ground arith

  -- Pruning at every outcome and for every schedule: a root that points at a runtime that
  -- `current` or `previous` names stays.
  pub prune_gc_roots_keeps :
      (name t : Text)
      → Names t
      → lookup (root_of s name) w.entries ≡ some (symlink t)
      → lookup (root_of s name) (prune_gc_roots s w).1.entries ≡ some (symlink t)
  unfolding prune_gc_roots prune_listed attempt ◌>>=◌
  prune_gc_roots_keeps name t h r = by_keep (keep_set s w).0 refl
    where
      by_keep :
          (o : Outcome (List Text))
          → (keep_set s w).0 ≡ o
          → lookup
              (root_of s name)
              (continue o
                (λ keep v. (attempt (read_dir (gc_roots s)) >>= prune_listed s keep) v)
                (keep_set s w).1).1.entries
            ≡ some (symlink t)
      by_keep (ok keep) e =
          let v = (keep_set s w).1 in
          by_list keep (read_dir (gc_roots s) v).0 (keep_set_has t keep e h)
        where
          by_list :
              (keep : List Text) (l : Outcome (List Text))
              → contains keep t ≡ true
              → lookup
                  (root_of s name)
                  (continue
                    (settle l)
                    (prune_listed s keep)
                    (read_dir (gc_roots s) (keep_set s w).1).1).1.entries
                ≡ some (symlink t)
          by_list keep (ok names) k = ground (
            arith,
            keep_set-SameFiles,
            read_dir-SameFiles (gc_roots s) (keep_set s w).1,
            prune_each_kept s keep names (root_of s name) t
                (read_dir (gc_roots s) (keep_set s w).1).1,
          )
          by_list keep (err x) k =
              ground (arith, keep_set-SameFiles, read_dir-SameFiles (gc_roots s) (keep_set s w).1)
          by_list keep crash k =
              ground (arith, keep_set-SameFiles, read_dir-SameFiles (gc_roots s) (keep_set s w).1)
      by_keep (err x) e = ground (arith, keep_set-SameFiles)
      by_keep crash e = ground (arith, keep_set-SameFiles)

  prune_listed_removes :
      (name t : Text) (keep : List Text) (l : Outcome (List Text)) {u : Unit {0}}
      → (keep_set s w).0 ≡ ok keep
      → (read_dir (gc_roots s) (keep_set s w).1).0 ≡ l
      → lookup (gc_roots s) w.entries ≡ some directory
      → lookup (root_of s name) w.entries ≡ some (symlink t)
      → ¬ Names t
      → (continue (settle l) (prune_listed s keep) (read_dir (gc_roots s) (keep_set s w).1).1).0
        ≡ ok u
      → lookup
          (root_of s name)
          (continue
            (settle l)
            (prune_listed s keep)
            (read_dir (gc_roots s) (keep_set s w).1).1).1.entries
        ≡ none
  unfolding prune_listed
  prune_listed_removes name t keep (ok names) k l made r other o =
      let v = (keep_set s w).1 in
      let kept : contains keep t ≡ false =
        Bool-false_of_ne (contains keep t) (λ c. other (keep_set_only t keep k c)) in
      let listed : contains names name ≡ true = ground (
        arith,
        keep_set-SameFiles,
        read_dir_names (gc_roots s) v l,
        names_under_complete (gc_roots s) name (symlink t) v.entries,
      ) in
      ground (
        arith,
        keep_set-SameFiles,
        read_dir-SameFiles (gc_roots s) v,
        prune_each_removed s keep names name t (read_dir (gc_roots s) v).1 o listed,
      )
  prune_listed_removes name t keep (err e) k l made r other o =
      ground (arith, keep_set-SameFiles, read_dir_made (gc_roots s) (keep_set s w).1 {e = e})
  prune_listed_removes name t keep crash k l made r other o = cc

  -- When pruning succeeds and the directory of the roots is there, a root that points at what
  -- neither `current` nor `previous` names is gone.
  pub prune_gc_roots_removes :
      (name t : Text) {u : Unit {0}}
      → (prune_gc_roots s w).0 ≡ ok u
      → lookup (gc_roots s) w.entries ≡ some directory
      → lookup (root_of s name) w.entries ≡ some (symlink t)
      → ¬ Names t
      → lookup (root_of s name) (prune_gc_roots s w).1.entries ≡ none
  unfolding prune_gc_roots attempt ◌>>=◌
  prune_gc_roots_removes name t o made r other =
      let (keep, k) = bind-eq-ok (keep_set s) _ w o in
      let l = (read_dir (gc_roots s) (keep_set s w).1).0 in
      ground (arith, k, prune_listed_removes name t keep l k refl made r other)
