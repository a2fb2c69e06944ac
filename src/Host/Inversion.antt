-- ===== src/Host/Inversion.antt =====
-- Taking a finished chain of actions apart: what each part returned, and the world between them.
use familiar_fleet.Base.{arith, ◌≡◌, refl, ◌⊎◌, inl, inr}
use familiar_fleet.Host.Errors.{Error, Result, done, failed}
use familiar_fleet.Host.Files.{World}
use familiar_fleet.Host.Action.{Outcome, ok, err, crash, Io, attempt, settle, continue, ◌>>=◌}

module _ {ℓ κ} {A : Type ℓ} {B : Type κ} where
  continue-eq-ok :
      (o : Outcome A) (f : A → Io B) (w : World) {b : B}
      → (continue o f w).0 ≡ ok b
      → (a : A) × (o ≡ ok a)
  continue-eq-ok (ok a) f w h = (a, refl)
  continue-eq-ok (err e) f w h = cc
  continue-eq-ok crash f w h = cc

  -- A chain that succeeds has a first part that succeeds.
  pub bind-eq-ok :
      (m : Io A) (f : A → Io B) (w : World) {b : B}
      → ((m >>= f) w).0 ≡ ok b
      → (a : A) × ((m w).0 ≡ ok a)
  unfolding ◌>>=◌
  bind-eq-ok m f w h = let (o, w') = m w in continue-eq-ok o f w' h

  -- Behind a first part that succeeds, the chain is the second part.
  pub bind_of_ok :
      (m : Io A) (f : A → Io B) (w : World) {a : A} → (m w).0 ≡ ok a → (m >>= f) w ≡ f a (m w).1
  unfolding ◌>>=◌
  bind_of_ok m f w h = ground arith

module _ {ℓ} {A : Type ℓ} where
  settle-eq-ok :
      (o : Outcome A) {r : Result A}
      → settle o ≡ ok r
      → ((a : A) × (o ≡ ok a) × (r ≡ done a)) ⊎ ((e : Error) × (o ≡ err e) × (r ≡ failed e))
  settle-eq-ok (ok a) h = inl (a, refl, cc)
  settle-eq-ok (err e) h = inr (e, refl, cc)
  settle-eq-ok crash h = cc

  -- What an error as a value comes from.
  pub attempt-eq-ok :
      (m : Io A) (w : World) {r : Result A}
      → (attempt m w).0 ≡ ok r
      → ((a : A) × ((m w).0 ≡ ok a) × (r ≡ done a))
        ⊎ ((e : Error) × ((m w).0 ≡ err e) × (r ≡ failed e))
  unfolding attempt
  attempt-eq-ok m w h = settle-eq-ok (m w).0 h

  pub world-attempt : (m : Io A) (w : World) → (attempt m w).1 ≡ (m w).1
  unfolding attempt
  world-attempt m w = refl
