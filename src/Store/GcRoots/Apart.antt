-- ===== src/Store/GcRoots/Apart.antt =====
-- Pruning changes nothing but roots.
use familiar_fleet.Base.{false, ◌≡◌, refl, List, [], ◌∷◌, Text, text_eq, texts_eq, ◌==◌, arith}
use familiar_fleet.Host.{
  World, Outcome, ok, err, crash, lookup, read_dir, attempt, continue, settle, ◌>>=◌, FilePath,
}
use familiar_fleet.Store.Paths.{root_of}
use familiar_fleet.Store.{Store, gc_roots}
use familiar_fleet.Store.GcRoots.{keep_set, prune_one, prune_each, prune_listed, prune_gc_roots}
use familiar_fleet.Store.GcRoots.Prune.{prune_one_other, read_dir-SameFiles, keep_set-SameFiles}

module _ (s : Store) (p : FilePath) (apart : (name : Text) → (root_of s name == p) ≡ false) where
  lookup-prune_each :
      (keep names : List Text) (w : World)
      → lookup p (prune_each s keep names w).1.entries ≡ lookup p w.entries
  unfolding prune_each ◌>>=◌
  lookup-prune_each keep [] w = refl
  lookup-prune_each keep (name ∷ names) w =
      let w' = (prune_one s keep name w).1 in
      ground (arith, prune_one_other s keep p name w (apart name), lookup-prune_each keep names w')

  lookup-prune_listed :
      (keep : List Text) (l : Outcome (List Text)) (w : World)
      → lookup p (continue (settle l) (prune_listed s keep) w).1.entries ≡ lookup p w.entries
  unfolding prune_listed
  lookup-prune_listed keep (ok names) w = lookup-prune_each keep names w
  lookup-prune_listed keep (err e) w = ground arith
  lookup-prune_listed keep crash w = refl

  lookup-prune_kept :
      (o : Outcome (List Text)) (w : World)
      → lookup p
          (continue o
            (λ keep. λ v.
              continue
                (settle (read_dir (gc_roots s) v).0)
                (prune_listed s keep)
                (read_dir (gc_roots s) v).1)
            w).1.entries
        ≡ lookup p w.entries
  lookup-prune_kept (ok keep) w =
      let l = read_dir (gc_roots s) w in
      ground (arith, read_dir-SameFiles s w (gc_roots s) w, lookup-prune_listed keep l.0 l.1)
  lookup-prune_kept (err e) w = refl
  lookup-prune_kept crash w = refl

  pub lookup-prune_gc_roots :
      (w : World) → lookup p (prune_gc_roots s w).1.entries ≡ lookup p w.entries
  unfolding prune_gc_roots attempt ◌>>=◌
  lookup-prune_gc_roots w =
      ground (arith, keep_set-SameFiles s w, lookup-prune_kept (keep_set s w).0 (keep_set s w).1)
