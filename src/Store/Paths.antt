-- ===== src/Store/Paths.antt =====
-- The paths of the runtime directory are apart from each other.
use familiar_fleet.Base.{
  ◌≡◌, ap, refl, inl, inr, false, Bool-cases, [], ◌∷◌, ◌++◌, Text, codes, ◌+◌, eq_iff, text_eq,
  texts_eq, ◌==◌, ◌≢◌, length, length-append, arith,
}
use familiar_fleet.Host.{FilePath}
use familiar_fleet.Store.{Store, in_store, current, previous, gc_roots, current_name, previous_name}

append-inj : (d : FilePath) (a b : Text) → (d ++ a ∷ []) ≡ (d ++ b ∷ []) → a ≡ b
append-inj [] a b e = cc
append-inj (c ∷ d) a b e = append-inj d a b (cc)

-- Two names in one directory.
pub append-ne :
    (d : FilePath) (a b : Text) → (a == b) ≡ false → ((d ++ a ∷ []) == (d ++ b ∷ [])) ≡ false
append-ne d a b h = elim (Bool-cases ((d ++ a ∷ []) == (d ++ b ∷ []))) [
  | inl e ↦
      absurd
        (ground (arith, eq_iff a b, append-inj d a b ((eq_iff (d ++ a ∷ []) (d ++ b ∷ [])).0 e)))
  | inr e ↦ e
]

-- Paths of different depth.
length_ne : (a b : FilePath) → length a ≢ length b → (a == b) ≡ false
length_ne a b h = elim (Bool-cases (a == b)) [
  | inl e ↦ absurd (h (ap length ((eq_iff a b).0 e)))
  | inr e ↦ e
]

length-in_store : (s : Store) (name : Text) → length (in_store s name) ≡ length s.dir + 1
length-in_store s name = length-append s.dir (name ∷ [])

-- A path beneath the directory of the roots.
abbrev pub root_of : Store → Text → FilePath
root_of s name = gc_roots s ++ name ∷ []

length-root_of : (s : Store) (name : Text) → length (root_of s name) ≡ length s.dir + 2
length-root_of s name =
    omega (arith, length-append {0} (gc_roots s) (name ∷ []), length-in_store s (codes "gcroots"))

pub current-ne-previous : (s : Store) → (current s == previous s) ≡ false
current-ne-previous s = append-ne s.dir current_name previous_name refl

pub previous-ne-current : (s : Store) → (previous s == current s) ≡ false
previous-ne-current s = append-ne s.dir previous_name current_name refl

pub dir-ne-in_store : (s : Store) (name : Text) → (s.dir == in_store s name) ≡ false
dir-ne-in_store s name = length_ne s.dir (in_store s name) (omega (arith, length-in_store s name))

pub dir-ne-root_of : (s : Store) (name : Text) → (s.dir == root_of s name) ≡ false
dir-ne-root_of s name = length_ne s.dir (root_of s name) (omega (arith, length-root_of s name))

pub in_store-ne-root_of :
    (s : Store) (name root : Text) → (in_store s name == root_of s root) ≡ false
in_store-ne-root_of s name root =
    length_ne (in_store s name) (root_of s root)
      (omega (arith, length-in_store s name, length-root_of s root))

pub root_of-ne-in_store :
    (s : Store) (name root : Text) → (root_of s root == in_store s name) ≡ false
root_of-ne-in_store s name root =
    length_ne (root_of s root) (in_store s name)
      (omega (arith, length-in_store s name, length-root_of s root))
