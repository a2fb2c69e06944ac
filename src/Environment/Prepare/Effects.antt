-- ===== src/Environment/Prepare/Effects.antt =====
-- What the preflight establishes before anything is generated.
use familiar_fleet.Base.{
  Bool, true, false, ◌≡◌, ◌⊎◌, inl, inr, refl, ap, subst, ◌∙◌, some, List, Text, codes,
}
use familiar_fleet.Host.{
  runtime_unusable, blame, World, Outcome, ok, err, crash, continue, map_err, ◌>>=◌, pure, symlink,
  lookup,
}
use familiar_fleet.Store.{ready, current, validate, current_name, in_store, Store, advise}
use familiar_fleet.Store.Reads.{
  Pointed, SameFiles, pointer-SameFiles, pointer-Pointed, validate-SameFiles, validate_sound,
  IsRuntime,
}
use familiar_fleet.Environment.{env_value, server_env, tiamat_url_env, tiamat_token_file_env}
use familiar_fleet.Environment.Prepare.{
  environment_of, herdr_config_rejected, config_fine, guard, wrap, Node, Surroundings,
  HerdrEnvironment, runtime_store, preflight, finish, prepare_herdr_environment, managed_by,
  require_tiamat, require_shell,
}
use familiar_fleet.PaneShell.{ShellError, UserShell, resolve_user_shell}
use familiar_fleet.Tiamat.{TiamatError, TiamatPreflight, resolve_tiamat}

trans-SameFiles : (u v w : World) → SameFiles u v → SameFiles v w → SameFiles u w
trans-SameFiles u v w p q = record {
  entries = q.entries ∙ p.entries;
  outside = q.outside ∙ p.outside;
}

module _ (s : Store) (w : World) where
  -- The active runtime: the entry, and what stands where it points.
  pub record IsActive (t : Text) : Type 0 where
    pub entry : lookup (in_store s current_name) w.entries ≡ some (symlink t)
    pub runtime : IsRuntime w.outside t

  abbrev IsAnswer : Outcome Text → Type 0
  IsAnswer (ok t) = IsActive t
  IsAnswer _ = Unit {0}

  record Readied (r : Outcome Text × World) : Type 0 where
    same : SameFiles w r.1
    answer : IsAnswer r.0

  validated :
      (t : Text) (v : World)
      → SameFiles w v
      → lookup (in_store s current_name) w.entries ≡ some (symlink t)
      → (o : Outcome (Unit {0})) (v' : World) → validate t v ≡ (o, v')
      → Readied (continue (blame (wrap runtime_unusable) o) (λ _. pure t) v')
  validated t v p e (ok u) v' h = record {
    same = trans-SameFiles w v v' p (subst (λ r. SameFiles v r.1) h (validate-SameFiles t v));
    answer = record {
      entry = e;
      runtime = subst (λ f. IsRuntime f t) p.outside (validate_sound t v (ap (λ r. r.0) h));
    };
  }
  validated t v p e (err x) v' h = record {
    same = trans-SameFiles w v v' p (subst (λ r. SameFiles v r.1) h (validate-SameFiles t v));
    answer = tt;
  }
  validated t v p e crash v' h = record {
    same = trans-SameFiles w v v' p (subst (λ r. SameFiles v r.1) h (validate-SameFiles t v));
    answer = tt;
  }

  pointed :
      (o : Outcome Text) (v : World)
      → SameFiles w v
      → Pointed s current_name w o w
      → Readied (
          continue
            (blame advise o)
            (λ target. map_err (wrap runtime_unusable) (validate target) >>= λ _. pure target)
            v)
  unfolding map_err ◌>>=◌
  pointed (ok t) v p h = validated t v p h.0 _ _ refl
  pointed (err e) v p h = record { same = p; answer = tt }
  pointed crash v p h = record { same = p; answer = tt }

  ready_lem : Readied (ready s w)
  unfolding ready map_err ◌>>=◌
  ready_lem = pointed _ _ (pointer-SameFiles s current_name w) (pointer-Pointed s current_name w)

module _ (n : Node) (around : Surroundings) (herdr : Text) (environ : List Text) where
  abbrev tiamat_found : TiamatError ⊎ TiamatPreflight
  tiamat_found =
      resolve_tiamat around.stat n.paths.tiamat_url_file n.paths.tiamat_token_file
        (env_value environ tiamat_url_env) (env_value environ tiamat_token_file_env)

  abbrev shell_found : ShellError ⊎ UserShell
  shell_found = resolve_user_shell n.paths around.info (env_value environ (codes "SHELL"))

  -- The three tests passed, in the world that the preflight began in.
  pub record IsPassed (w : World) (current : Text) (t : TiamatPreflight) (u : UserShell)
      : Type 0 where
    pub active : IsActive (runtime_store n) w current
    pub tiamat : tiamat_found ≡ inr t
    pub shell : shell_found ≡ inr u

  abbrev Tested : World → Outcome (Text × (TiamatPreflight × UserShell)) → Type 0
  Tested w (ok (current, (t, u))) = IsPassed w current t u
  Tested w _ = Unit {0}

  record Preflighted (w : World) (r : Outcome (Text × (TiamatPreflight × UserShell)) × World)
      : Type 0 where
    same : SameFiles w r.1
    tested : Tested w r.0

  module _ (w v : World) (p : SameFiles w v) where
    rest_tested :
        (o : Outcome Text)
        → IsAnswer (runtime_store n) w o
        → (x : TiamatError ⊎ TiamatPreflight) → tiamat_found ≡ x
        → (y : ShellError ⊎ UserShell) → shell_found ≡ y
        → Preflighted w (
            continue o
              (λ current. require_tiamat x >>= λ tiamat.
                require_shell y >>= λ shell. pure (current, (tiamat, shell)))
              v)
    unfolding ◌>>=◌
    rest_tested (ok t) a (inr x) e (inr y) f = record {
      same = p;
      tested = record { active = a; tiamat = e; shell = f };
    }
    rest_tested (ok t) a (inr x) e (inl y) f = record { same = p; tested = tt }
    rest_tested (ok t) a (inl x) e y f = record { same = p; tested = tt }
    rest_tested (err z) a x e y f = record { same = p; tested = tt }
    rest_tested crash a x e y f = record { same = p; tested = tt }

  preflight_lem : (w : World) → Preflighted w (preflight n around herdr environ w)
  unfolding preflight ◌>>=◌
  preflight_lem w =
      let r = ready_lem (runtime_store n) w in
      rest_tested w (ready (runtime_store n) w).1 r.same (ready (runtime_store n) w).0 r.answer
        tiamat_found refl shell_found refl

  -- The environment is that of what the tests found.
  pub record IsPrepared (w : World) (h : HerdrEnvironment) : Type 0 where
    pub user_shell : UserShell
    pub passed : IsPassed w h.runtime h.tiamat user_shell
    pub shell_is : h.user_shell ≡ user_shell.shell
    pub env_is : h.env ≡ server_env environ (managed_by n around herdr environ h.tiamat)

  pub record AllPassed (w : World) : Type 0 where
    pub current : Text
    pub tiamat : TiamatPreflight
    pub user_shell : UserShell
    pub passed : IsPassed w current tiamat user_shell

  -- How a start ends.
  abbrev pub Ended : World → Outcome HerdrEnvironment → World → Type 0
  Ended w (ok h) v = IsPrepared w h
  Ended w _ v = SameFiles w v ⊎ AllPassed w

  module _ (w : World) (c : Text) (t : TiamatPreflight) (u : UserShell) (p : IsPassed w c t u) where
    all_passed : AllPassed w
    all_passed = record { current = c; tiamat = t; user_shell = u; passed = p }

    checked :
        (b : Bool) (v : World)
        → let r =
            (guard b herdr_config_rejected >>= λ _.
            pure (environment_of n around herdr environ c t u))
              v in
          Ended w r.0 r.1
    unfolding ◌>>=◌
    checked true v = record { user_shell = u; passed = p; shell_is = refl; env_is = refl }
    checked false v = inr all_passed

    generated :
        (o : Outcome (Unit {0})) (v : World)
        → let r =
            continue o
              (λ _.
                guard
                  (config_fine n around herdr environ
                    (server_env environ (managed_by n around herdr environ t)))
                  herdr_config_rejected
                >>= λ _. pure (environment_of n around herdr environ c t u))
              v in
          Ended w r.0 r.1
    generated (ok _) v = checked _ v
    generated (err e) v = inr all_passed
    generated crash v = inr all_passed

  finished :
      (w v : World) (o : Outcome (Text × (TiamatPreflight × UserShell)))
      → SameFiles w v
      → Tested w o
      → let r = continue o (finish n around herdr environ) v in Ended w r.0 r.1
  unfolding ◌>>=◌
  finished w v (ok (c, (t, u))) p h = generated w c t u h _ _
  finished w v (err e) p h = inl p
  finished w v crash p h = inl p

  -- A start that fails, or whose process is killed, leaves every file as it was, unless the active
  -- runtime was valid and the tests of Tiamat and of the user's shell passed. One that succeeds
  -- reports that runtime, that Tiamat preflight and that shell, and the environment made for them.
  pub prepare_herdr_environment-Ended :
      (w : World) → let r = prepare_herdr_environment n around herdr environ w in Ended w r.0 r.1
  unfolding prepare_herdr_environment ◌>>=◌
  prepare_herdr_environment-Ended w = let r = preflight_lem w in finished w _ _ r.same r.tested
