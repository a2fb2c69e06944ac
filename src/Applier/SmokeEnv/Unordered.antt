-- ===== src/Applier/SmokeEnv/Unordered.antt =====
-- What the tool reads from the environment of a smoke run.
use mathlib.Core.List.{Permᴰ}
use mathlib.Core.List.{Perm}
use mathlib.Core.Logic.{∥∥₁_elim}
use familiar_fleet.Base.{
  Option-cases, Bool-cases, Bool, true, false, not, ◌&&◌, ◌≡◌, ◌≢◌, refl, sym, subst, ap, ◌∙◌,
  Option, none, some, List, [], ◌∷◌, ◌++◌, Text, nat_eq, text_eq, eq_iff, ◌==◌, arith,
  if◌then◌else◌, map, all, inl, inr,
}
use familiar_fleet.Environment.{
  env_find, split_variable, non_empty_key, split_at_equals, value_if, first_some, key_or_all,
}
use familiar_fleet.Environment.Server.{env_find-append, drop_or_keep}
use familiar_fleet.Applier.SmokeEnv.{key_of, has_key, assignment, kept, smoke_env, smoke_overrides}

abbrev Overrides : Type 0
Overrides = List (Text × Text)

-- The value that is assigned to a key.
abbrev pub assigned : Overrides → Text → Option Text
assigned [] key = none
assigned ((k, v) ∷ os) key = first_some (assigned os key) (if k == key then some v else none)

-- No key twice, and each one a name: not empty, without an equals sign.
abbrev no_equals : Text → Bool
no_equals [] = true
no_equals (c ∷ s) = not (c == b'=') && no_equals s

abbrev is_name : Text → Bool
is_name [] = false
is_name (c ∷ s) = no_equals (c ∷ s)

abbrev fresh : Text → Overrides → Bool
fresh k os = all (λ o. not (o.0 == k)) os

abbrev well_keyed : Overrides → Bool
well_keyed [] = true
well_keyed ((k, v) ∷ os) = is_name k && fresh k os && well_keyed os

split-assignment : (k v : Text) → no_equals k ≡ true → split_at_equals (k ++ b'=' ∷ v) ≡ some (k, v)
unfolding split_at_equals
split-assignment [] v h = refl
split-assignment (c ∷ k) v h = ground (arith, h, split-assignment k v)

split_variable-assignment :
    (k v : Text) → is_name k ≡ true → split_variable (k ++ b'=' ∷ v) ≡ some (k, v)
unfolding split_variable
split_variable-assignment [] v h = absurd (ground (arith, h))
split_variable-assignment (c ∷ k) v h = ground (arith, split-assignment (c ∷ k) v h)

env_find-assignments :
    (os : Overrides) (key : Text)
    → well_keyed os ≡ true
    → env_find (map assignment os) key ≡ assigned os key
unfolding env_find
env_find-assignments [] key h = refl
env_find-assignments ((k, v) ∷ os) key h =
    ground (arith, h, env_find-assignments os key, split_variable-assignment k v)

true-ne-false : true ≢ false
true-ne-false e = ground (arith, e)

-- The key of an entry that is dropped is the key of an override.
other_entry :
    (os : Overrides) (entry key : Text) (o : Option (Text × Text))
    → has_key os key ≡ false
    → has_key os (key_or_all entry o) ≡ true
    → value_if key (non_empty_key o) ≡ none
other_entry os entry key none h c = refl
other_entry os entry key (some ([], v)) h c = refl
other_entry os entry key (some (b ∷ k, v)) h c = elim (Bool-cases ((b ∷ k) == key)) [
  | inl e ↦ absurd (true-ne-false (sym c ∙ ap (has_key os) ((eq_iff (b ∷ k) key).0 e) ∙ h))
  | inr e ↦ rw e
]

-- The entries of the other keys stay.
env_find-kept :
    (environ : List Text) (os : Overrides) (key : Text)
    → has_key os key ≡ false
    → env_find (kept environ os) key ≡ env_find environ key
unfolding env_find split_variable
env_find-kept [] os key h = refl
env_find-kept (entry ∷ environ) os key h =
    drop_or_keep (has_key os (key_of entry)) entry (kept environ os) key
      (other_entry os entry key (split_at_equals entry) h)
    ∙ ap (λ r. first_some r (value_if key (split_variable entry))) (env_find-kept environ os key h)

-- The order does not matter.
module _ (k : Text) where
  abbrev is_other : Text × Text → Bool
  is_other o = not (o.0 == k)

  fresh-perm : {os ps : Overrides} → Permᴰ os ps → fresh k os ≡ true → fresh k ps ≡ true
  fresh-perm Permᴰ.nil h = h
  fresh-perm (Permᴰ.cons e p) h = ground (arith, h, ap is_other e, fresh-perm p)
  fresh-perm (Permᴰ.swap e f) h = ground (arith, h, ap is_other e, ap is_other f)
  fresh-perm (Permᴰ.trans p q) h = fresh-perm q (fresh-perm p h)

well_keyed-perm : {os ps : Overrides} → Permᴰ os ps → well_keyed os ≡ true → well_keyed ps ≡ true
well_keyed-perm Permᴰ.nil h = h
well_keyed-perm (Permᴰ.cons {a = a} {b = b} {l₂ = l₂} e p) h =
    subst (λ x. well_keyed (x ∷ l₂) ≡ true) e
      (ground (arith, h, fresh-perm a.0 p, well_keyed-perm p))
well_keyed-perm (Permᴰ.swap {a = a} {b = b} {a' = a'} {b' = b'} {l = l} e f) h =
    subst (λ x. well_keyed (x ∷ b' ∷ l) ≡ true) f
      (subst (λ y. well_keyed (b ∷ y ∷ l) ≡ true) e
        (ground (arith, h, eq_iff a.0 b.0, eq_iff b.0 a.0)))
well_keyed-perm (Permᴰ.trans p q) h = well_keyed-perm q (well_keyed-perm p h)

first_some-none :
    (x y : Option Text) → first_some (first_some x y) none ≡ first_some (first_some x none) y
first_some-none none none = refl
first_some-none none (some b) = refl
first_some-none (some a) y = refl

assigned-swap :
    (a b : Text × Text) (os : Overrides) (key : Text)
    → well_keyed (a ∷ b ∷ os) ≡ true
    → assigned (a ∷ b ∷ os) key ≡ assigned (b ∷ a ∷ os) key
assigned-swap a b os key h = elim (Bool-cases (a.0 == key)) [
  | inl e ↦ elim (Bool-cases (b.0 == key)) [
    | inl f ↦ absurd (ground (arith, h, eq_iff b.0 a.0, eq_iff a.0 key, eq_iff b.0 key, e, f))
    | inr f ↦ rw (e, f) (sym (first_some-none (assigned os key) (some a.1)))
  ]
  | inr e ↦ rw e (first_some-none (assigned os key) (if b.0 == key then some b.1 else none))
]

assigned-perm :
    {os ps : Overrides}
    → Permᴰ os ps
    → well_keyed os ≡ true
    → (key : Text) → assigned os key ≡ assigned ps key
assigned-perm Permᴰ.nil h key = refl
assigned-perm (Permᴰ.cons {a = a} {b = b} {l₁ = l₁} {l₂ = l₂} e p) h key =
    subst (λ x. assigned (a ∷ l₁) key ≡ assigned (x ∷ l₂) key) e
      (ap (λ o. first_some o (if a.0 == key then some a.1 else none))
        (assigned-perm p (ground (arith, h)) key))
assigned-perm (Permᴰ.swap {a = a} {b = b} {a' = a'} {b' = b'} {l = l} e f) h key =
    subst (λ x. assigned (a ∷ b ∷ l) key ≡ assigned (x ∷ b' ∷ l) key) f
      (subst (λ y. assigned (a ∷ b ∷ l) key ≡ assigned (b ∷ y ∷ l) key) e
        (assigned-swap a b l key h))
assigned-perm (Permᴰ.trans p q) h key =
    assigned-perm p h key ∙ assigned-perm q (well_keyed-perm p h) key

unassigned : (os : Overrides) (key : Text) → assigned os key ≡ none → has_key os key ≡ false
unassigned [] key h = refl
unassigned ((k, v) ∷ os) key h = ground (arith, h, unassigned os key)

-- The lookup in the environment of a smoke run, for overrides in one order.
env_find-ordered :
    (environ : List Text) (os : Overrides) (key : Text)
    → well_keyed os ≡ true
    → env_find (smoke_env environ os) key ≡ first_some (assigned os key) (env_find environ key)
unfolding smoke_env
env_find-ordered environ os key h =
    env_find-append (kept environ os) (map assignment os) key
    ∙ ap (λ r. first_some r (env_find (kept environ os) key)) (env_find-assignments os key h)
    ∙ elim (Option-cases (assigned os key)) [
      | inl e ↦
          ap (first_some (assigned os key)) (env_find-kept environ os key (unassigned os key e))
      | inr (v, e) ↦ rw e refl
    ]

-- Whatever order the map of the overrides is gone through in: where `Smoke` sets a variable, which are
-- `PATH`, the router's URL and the token file, the environment of the smoke run has the value that
-- it sets, and for every other variable what the environment of the process has.
pub env_find-smoke_env :
    (environ : List Text) (target path token : Text) (overrides : List (Text × Text))
    → Perm (smoke_overrides target path token) overrides
    → (key : Text)
    → env_find (smoke_env environ overrides) key
      ≡ first_some (assigned (smoke_overrides target path token) key) (env_find environ key)
unfolding smoke_overrides
env_find-smoke_env environ target path token overrides p key = ∥∥₁_elim p (hlevel) λ q.
    env_find-ordered environ overrides key (well_keyed-perm q refl)
    ∙ ap (λ r. first_some r (env_find environ key)) (sym (assigned-perm q refl key))
