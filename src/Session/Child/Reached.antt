-- ===== src/Session/Child/Reached.antt =====
-- Whom a signal of `child.stop` reaches.
use familiar_fleet.Base.{
  ℕ, Bool, true, not, ◌&&◌, ◌||◌, ◌≡◌, List, [], ◌∷◌, ◌++◌, nat_eq, ◌==◌, eq_iff, all, arith, refl,
}
use familiar_fleet.Session.Child.{
  is_free, Child, start_child_with_attrs, start_child, start_foreground_child, start_detached_child,
  Start, grouped, foreground, detached, Process, child_process, is_signalled, Table, started,
  forked, regrouped, regrouped_with, exited,
}

module _ (c : Child) where
  -- What has the child's number descends from it, and what is in that group does, or has moved.
  abbrev is_own : Process → Bool
  is_own p =
      (not (p.pid == c.pid) || p.descends) && (not (p.group == c.pid) || p.descends || p.joins)

  all-split :
      (ps : List Process) (p : Process) (qs : List Process)
      → all is_own (ps ++ p ∷ qs) ≡ true
      → (all is_own ps ≡ true) × (is_own p ≡ true) × (all is_own qs ≡ true)
  all-split [] p qs h = ground (arith, h)
  all-split (q ∷ ps) p qs h = ground (arith, h, all-split ps p qs)

  all-join :
      (ps qs : List Process)
      → all is_own ps ≡ true
      → all is_own qs ≡ true
      → all is_own (ps ++ qs) ≡ true
  all-join [] qs h k = k
  all-join (p ∷ ps) qs h k = ground (arith, h, all-join ps qs, k)

  others-own : (ps : List Process) → is_free c.pid ps ≡ true → all is_own ps ≡ true
  others-own [] h = refl
  others-own (p ∷ ps) h = ground (arith, h, others-own ps)

  Table-own : {ps : List Process} → Table c ps → all is_own ps ≡ true
  Table-own (started others group free old apart) = ground (arith, others-own others free)
  Table-own (forked before after p n t free fresh) =
      let (_, own, _) = all-split before p after (Table-own t) in
      ground (arith, own, fresh, Table-own t)
  Table-own (regrouped before after p t) =
      let (first, own, rest) = all-split before p after (Table-own t) in
      all-join before (_ ∷ after) first (ground (arith, own, rest))
  Table-own (regrouped_with before after p group t) =
      let (first, own, rest) = all-split before p after (Table-own t) in
      all-join before (_ ∷ after) first (ground (arith, own, rest))
  Table-own (exited before after p t) =
      let (first, own, rest) = all-split before p after (Table-own t) in
      all-join before after first rest

  -- The signal reaches only what descends from the child, or has moved to another group.
  abbrev pub is_spared : Process → Bool
  is_spared p = not (is_signalled c p) || p.descends || p.joins

  own-spared : (p : Process) → is_own p ≡ true → is_spared p ≡ true
  unfolding is_signalled
  own-spared p h = ground (arith, h)

child-signalled :
    {c : Child} (s : Start c) (group : ℕ) → is_signalled c (child_process c group) ≡ true
unfolding is_signalled start_child start_foreground_child start_detached_child
    start_child_with_attrs
child-signalled (grouped path args pid) group = (eq_iff pid pid).1 refl
child-signalled (foreground path args pid) group = (eq_iff pid pid).1 refl
child-signalled (detached path args env pid) group = (eq_iff pid pid).1 refl

spared-all :
    (c : Child) (ps : List Process) → all (is_own c) ps ≡ true → all (is_spared c) ps ≡ true
spared-all c [] h = refl
spared-all c (p ∷ ps) h = ground (arith, h, own-spared c p, spared-all c ps)

-- For each of the three ways to start a child: a signal of `child.stop` reaches the child as it was
-- started, and, whatever forks, moves between groups and exits have followed, no process but the
-- child, those that descend from it, and those that have moved to the group of another process or
-- were forked from such a one.
pub is_signalled-all :
    {c : Child} {ps : List Process}
    → Start c
    → Table c ps
    → ((group : ℕ) → is_signalled c (child_process c group) ≡ true) × (all (is_spared c) ps ≡ true)
is_signalled-all {c} {ps} s t = (child-signalled s, spared-all c ps (Table-own c t))
