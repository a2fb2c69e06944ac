-- ===== src/Applier/Prepare.antt =====
-- What is done before a pointer moves: no pointer changes, and what comes out was validated, has
-- run, and is retained by a root if it is a Nix store output.
use familiar_fleet.Base.{
  Bool, true, false, ◌≡◌, inl, inr, Option-cases, Option, none, some, Text, codes, text_eq,
  texts_eq, eq_iff, ◌==◌, arith,
}
use familiar_fleet.FilePath.{clean, base}
use familiar_fleet.Host.{
  World, Outcome, ok, err, crash, Entry, symlink, lookup, lookup-put, readlink, attempt, map_err,
  perform, continue, settle, guard, root_not_created, finally, ◌>>=◌, FilePath, mkdir_all,
  run_leaving, run_output, make_temp, fill_temp, remove_temp, no_op,
}
use familiar_fleet.Store.Paths.{append-ne, root_of, root_of-ne-in_store}
use familiar_fleet.Store.{Store, gc_roots, in_store, validate, tool_of}
use familiar_fleet.Store.Activation.{lookup-mkdir_all, outside-mkdir_all}
use familiar_fleet.Store.Reads.{validate-SameFiles}
use familiar_fleet.Store.GcRoots.{
  register_gc_root, is_store_path, create_root, root_from, is_link_to,
}
use familiar_fleet.Applier.{Tools, RuntimeApplier, build, smoke, retain, vet}

-- A path that registering a root leaves alone.
pub record IsApart (s : Store) (p : FilePath) : Type 0 where
  pub from_dir : (gc_roots s == p) ≡ false
  pub from_root : (name : Text) → (root_of s name == p) ≡ false

pub in_store-IsApart :
    (s : Store) (name : Text) → (codes "gcroots" == name) ≡ false → IsApart s (in_store s name)
in_store-IsApart s name h = record {
  from_dir = append-ne s.dir (codes "gcroots") name h;
  from_root = λ root. root_of-ne-in_store s name root;
}

lookup-run_leaving :
    (r : Bool × Option Entry) (root p : FilePath) (w : World)
    → (root == p) ≡ false
    → lookup p (run_leaving r root w).1.entries ≡ lookup p w.entries
unfolding run_leaving perform
lookup-run_leaving (b, none) root p w h = ground arith
lookup-run_leaving (b, some x) root p w h = ground (arith, lookup-put root p x w.entries)

readlink_entries : (p : FilePath) (w : World) → (readlink p w).1.entries ≡ w.entries
unfolding readlink perform
readlink_entries p w = ground arith

abbrev Linked : FilePath → Outcome Text → World → Type 0
Linked p (ok t) w = lookup p w.entries ≡ some (symlink t)
Linked p (err _) w = Unit
Linked p crash w = Unit

readlink-Linked : (p : FilePath) (w : World) → Linked p (readlink p w).0 w
unfolding readlink perform
readlink-Linked p w = ground arith

module _ (realise : Text → Bool × Option Entry) where
  lookup-create_root :
      (root : FilePath) (target : Text) (p : FilePath) (w : World)
      → (root == p) ≡ false
      → lookup p (create_root realise root target w).1.entries ≡ lookup p w.entries
  unfolding create_root attempt map_err ◌>>=◌
  lookup-create_root root target p w h =
      let w₁ = (run_leaving (realise target) root w).1 in
      ground (arith, lookup-run_leaving (realise target) root p w h, readlink_entries root w₁)

  made_by_check :
      (root : FilePath) (target : Text) (o : Outcome Text) (w v : World) {u : Unit {0}}
      → Linked root o w
      → v.entries ≡ w.entries
      → (continue (settle o) (λ made. guard (is_link_to target made) root_not_created) v).0 ≡ ok u
      → lookup root
          (continue
            (settle o)
            (λ made. guard (is_link_to target made) root_not_created)
            v).1.entries
        ≡ some (symlink target)
  made_by_check root target (ok t) w v l same h = ground (arith, eq_iff t target)
  made_by_check root target (err e) w v l same h = cc
  made_by_check root target crash w v l same h = cc

  create_root_made :
      (root : FilePath) (target : Text) (w : World) {u : Unit {0}}
      → (create_root realise root target w).0 ≡ ok u
      → lookup root (create_root realise root target w).1.entries ≡ some (symlink target)
  unfolding create_root attempt map_err ◌>>=◌
  create_root_made root target w o =
      let w₁ = (run_leaving (realise target) root w).1 in
      ground (
        arith,
        made_by_check root target (readlink root w₁).0 w₁ (readlink root w₁).1
            (readlink-Linked root w₁) (readlink_entries root w₁),
      )

  root_from_made :
      (root : FilePath) (target : Text) (o : Outcome Text) (w v : World) {u : Unit {0}}
      → Linked root o w
      → v.entries ≡ w.entries
      → (continue (settle o) (root_from realise root target) v).0 ≡ ok u
      → lookup root (continue (settle o) (root_from realise root target) v).1.entries
        ≡ some (symlink target)
  root_from_made root target (ok t) w v l same h = ground (arith, eq_iff t target)
  root_from_made root target (err e) w v l same h = ground (arith, create_root_made root target v)
  root_from_made root target crash w v l same h = cc

module _ (realise : Text → Bool × Option Entry) (s : Store) (target : Text) (w : World) where
  pub lookup-register_gc_root :
      (p : FilePath)
      → IsApart s p
      → lookup p (register_gc_root realise s target w).1.entries ≡ lookup p w.entries
  unfolding register_gc_root attempt ◌>>=◌
  lookup-register_gc_root p h =
      let w₁ = (mkdir_all (gc_roots s) w).1 in
      let root = root_of s (base (clean target)) in
      let w₂ = (readlink root w₁).1 in
      ground (
        arith,
        lookup-mkdir_all (gc_roots s) p w h.from_dir,
        readlink_entries root w₁,
        lookup-create_root realise root (clean target) p w₂ (h.from_root (base (clean target))),
      )

  -- A registration that succeeds leaves the root of the cleaned target.
  pub register_gc_root_made :
      {u : Unit {0}}
      → (register_gc_root realise s target w).0 ≡ ok u
      → lookup (root_of s (base (clean target))) (register_gc_root realise s target w).1.entries
        ≡ some (symlink (clean target))
  unfolding register_gc_root attempt ◌>>=◌
  register_gc_root_made o =
      let w₁ = (mkdir_all (gc_roots s) w).1 in
      let root = root_of s (base (clean target)) in
      ground (
        arith,
        root_from_made realise root (clean target) (readlink root w₁).0 w₁ (readlink root w₁).1
            (readlink-Linked root w₁) (readlink_entries root w₁),
      )

module _ (tools : Tools) where
  pub entries-smoke : (target : Text) (w : World) → (smoke tools target w).1.entries ≡ w.entries
  unfolding smoke make_temp fill_temp no_op remove_temp attempt map_err finally perform ◌>>=◌
  entries-smoke target w = ground arith

  pub outside-smoke : (target : Text) (w : World) → (smoke tools target w).1.outside ≡ w.outside
  unfolding smoke make_temp fill_temp no_op remove_temp attempt map_err finally perform ◌>>=◌
  outside-smoke target w = ground arith

  pub smoke_sound :
      (target : Text) (w : World) {u : Unit {0}}
      → (smoke tools target w).0 ≡ ok u
      → tools.runs (tool_of target) ≡ true
  unfolding smoke make_temp fill_temp no_op remove_temp attempt map_err finally perform ◌>>=◌
  smoke_sound target w h = ground arith

  pub entries-build :
      (nix installable : Text) (w : World) → (build tools nix installable w).1.entries ≡ w.entries
  unfolding build run_output map_err perform ◌>>=◌
  entries-build nix installable w = ground arith

  module _ (a : RuntimeApplier) where
    pub lookup-retain :
        (target : Text) (w : World) (p : FilePath)
        → IsApart a.store p
        → lookup p (retain tools a target w).1.entries ≡ lookup p w.entries
    unfolding retain map_err ◌>>=◌
    lookup-retain target w p h = elim (Option-cases (tools.find a.nix_store)) [
      | inl e ↦ ground (arith, e)
      | inr (path, e) ↦
          ground (arith, e, lookup-register_gc_root (tools.realise path) a.store target w p h)
    ]

    pub retain_made :
        (target : Text) (w : World) {u : Unit {0}}
        → (retain tools a target w).0 ≡ ok u
        → is_store_path target ≡ true
        → lookup (root_of a.store (base (clean target))) (retain tools a target w).1.entries
          ≡ some (symlink (clean target))
    unfolding retain map_err ◌>>=◌
    retain_made target w h k = elim (Option-cases (tools.find a.nix_store)) [
      | inl e ↦ absurd (ground (arith, e))
      | inr (path, e) ↦
          ground (arith, e, register_gc_root_made (tools.realise path) a.store target w)
    ]

outside-run_leaving :
    (r : Bool × Option Entry) (root : FilePath) (w : World)
    → (run_leaving r root w).1.outside ≡ w.outside
unfolding run_leaving perform
outside-run_leaving (b, o) root w = ground arith

outside-register_gc_root :
    (realise : Text → Bool × Option Entry) (s : Store) (target : Text) (w : World)
    → (register_gc_root realise s target w).1.outside ≡ w.outside
unfolding register_gc_root create_root readlink attempt map_err perform ◌>>=◌
outside-register_gc_root realise s target w =
    let w₁ = (mkdir_all (gc_roots s) w).1 in
    let root = root_of s (base (clean target)) in
    ground (
      arith,
      outside-mkdir_all (gc_roots s) w,
      outside-run_leaving (realise (clean target)) root (readlink root w₁).1,
    )

module _ (tools : Tools) (a : RuntimeApplier) (target : Text) (w : World) where
  pub outside-retain : (retain tools a target w).1.outside ≡ w.outside
  unfolding retain map_err ◌>>=◌
  outside-retain = elim (Option-cases (tools.find a.nix_store)) [
    | inl e ↦ ground (arith, e)
    | inr (path, e) ↦
        ground (arith, e, outside-register_gc_root (tools.realise path) a.store target w)
  ]

  pub lookup-vet :
      (p : FilePath)
      → IsApart a.store p
      → lookup p (vet tools a target w).1.entries ≡ lookup p w.entries
  unfolding vet map_err ◌>>=◌
  lookup-vet p h =
      let w₁ = (validate target w).1 in
      let w₂ = (smoke tools target w₁).1 in
      ground (
        arith,
        validate-SameFiles target w,
        entries-smoke tools target w₁,
        lookup-retain tools a target w₂ p h,
      )
