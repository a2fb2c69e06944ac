-- ===== src/Host/Answers.antt =====
-- What holds of the value that an action returns, and of the world behind it, if it returns one.
use familiar_fleet.Base.{◌≡◌, refl}
use familiar_fleet.Host.Errors.{Error}
use familiar_fleet.Host.Files.{World}
use familiar_fleet.Host.Action.{Outcome, ok, err, crash, Io, continue, blame, ◌>>=◌, map_err}

module _ {A : Type 0} (P : A → World → Type 0) where
  abbrev pub Answers : Outcome A × World → Type 0
  Answers (ok a, w) = P a w
  Answers (_, w) = Unit

  pub Answers-by : (r : Outcome A × World) → ((a : A) → r.0 ≡ ok a → P a r.1) → Answers r
  Answers-by (ok a, w) h = h a refl
  Answers-by (err e, w) h = tt
  Answers-by (crash, w) h = tt

module _ {A B : Type 0} (P : B → World → Type 0) (f : A → Io B) where
  continue-Answers :
      (o : Outcome A) (w : World)
      → ((a : A) → o ≡ ok a → Answers P (f a w))
      → Answers P (continue o f w)
  continue-Answers (ok a) w h = h a refl
  continue-Answers (err e) w h = tt
  continue-Answers crash w h = tt

  -- A chain answers as its second part does.
  pub bind-Answers :
      (m : Io A) (w : World)
      → ((a : A) → (m w).0 ≡ ok a → Answers P (f a (m w).1))
      → Answers P ((m >>= f) w)
  unfolding ◌>>=◌
  bind-Answers m w h = continue-Answers (m w).0 (m w).1 h

module _ {A : Type 0} (P : A → World → Type 0) (g : Error → Error) where
  blame-Answers : (o : Outcome A) (w : World) → Answers P (o, w) → Answers P (blame g o, w)
  blame-Answers (ok a) w h = h
  blame-Answers (err e) w h = tt
  blame-Answers crash w h = tt

  -- Another error is no other answer.
  pub map_err-Answers : (m : Io A) (w : World) → Answers P (m w) → Answers P (map_err g m w)
  unfolding map_err
  map_err-Answers m w h = blame-Answers (m w).0 (m w).1 h
