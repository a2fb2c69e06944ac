-- ===== src/Environment/Server.antt =====
-- What the Herdr server reads from its environment.
use familiar_fleet.Base.{
  ◌||◌, All, Bool, true, false, ◌≡◌, ◌≢◌, refl, sym, ap, ◌∙◌, inl, inr, Option, none, some, List,
  [], ◌∷◌, ◌++◌, Text, codes, nat_eq, text_eq, eq_iff, ◌==◌, contains, arith, Bool-cases,
  if◌then◌else◌,
}
use familiar_fleet.Environment.{
  env_find, env_value, split_variable, split_at_equals, value_if, first_some, tiamat_url_env,
  tiamat_token_file_env, key_or_all, managed_keys, unmanaged, Managed, managed_variables, prefixed,
  server_env,
}

first_some_assoc :
    (a b c : Option Text) → first_some a (first_some b c) ≡ first_some (first_some a b) c
first_some_assoc none b c = refl
first_some_assoc (some a) b c = refl

pub env_find-append :
    (xs ys : List Text) (k : Text)
    → env_find (xs ++ ys) k ≡ first_some (env_find ys k) (env_find xs k)
unfolding env_find
env_find-append [] ys k = ground arith
env_find-append (x ∷ xs) ys k = ground (
  arith,
  env_find-append xs ys k,
  first_some_assoc (env_find ys k) (env_find xs k) (value_if k (split_variable x)),
)

pub drop_or_keep :
    (b : Bool) (kv : Text) (rest : List Text) (k : Text)
    → (b ≡ true → value_if k (split_variable kv) ≡ none)
    → env_find (if b then rest else kv ∷ rest) k
      ≡ first_some (env_find rest k) (value_if k (split_variable kv))
unfolding env_find
drop_or_keep true kv rest k h = ground (arith, h refl)
drop_or_keep false kv rest k h = refl

true-ne-false : true ≢ false
true-ne-false h = ground (arith, h)

-- A key that is not managed is not the key of a dropped variable.
other_key :
    (kv k : Text) (o : Option (Text × Text))
    → contains managed_keys k ≡ false
    → contains managed_keys (key_or_all kv o) ≡ true
    → value_if k o ≡ none
other_key kv k none h c = refl
other_key kv k (some (q, v)) h c = elim (Bool-cases (q == k)) [
  | inl e ↦ absurd (true-ne-false (sym c ∙ ap (contains managed_keys) ((eq_iff q k).0 e) ∙ h))
  | inr e ↦ rw e
]

-- The filter leaves the variables of the other keys.
env_find-unmanaged :
    (environ : List Text) (k : Text)
    → contains managed_keys k ≡ false
    → env_find (unmanaged environ) k ≡ env_find environ k
unfolding env_find unmanaged
env_find-unmanaged [] k h = refl
env_find-unmanaged (kv ∷ environ) k h =
    drop_or_keep (contains managed_keys (key_or_all kv (split_variable kv))) kv (unmanaged environ)
      k (other_key kv k (split_variable kv) h)
    ∙ ap (λ r. first_some r (value_if k (split_variable kv))) (env_find-unmanaged environ k h)

abbrev if_some : Bool → Text → Option Text
if_some b v = if b then some v else none

none_of_six :
    (a b c d e f : Bool) (s t u v w x : Text)
    → (a || (b || (c || (d || (e || (f || false)))))) ≡ false
    → first_some
        (first_some
          (first_some
            (first_some (first_some (if_some f x) (if_some e w)) (if_some d v))
            (if_some c u))
          (if_some b t))
        (if_some a s)
      ≡ none
none_of_six a b c d e f s t u v w x h = ground arith

unset :
    (m : Managed) (path k : Text)
    → contains managed_keys k ≡ false
    → env_find (managed_variables m path) k ≡ none
unfolding env_find split_variable split_at_equals
unset m path k h =
    none_of_six (codes "PATH" == k) (codes "HERDR_CONFIG_PATH" == k)
      (codes "PI_CODING_AGENT_DIR" == k) (codes "FAMILIAR_RUNTIME_BIN" == k) (tiamat_url_env == k)
      (tiamat_token_file_env == k) (m.bin ++ prefixed path) m.herdr_config m.pi_dir m.bin m.url
      m.token_file h

-- The variables that the server environment sets, by their values.
abbrev pub managed_values : List Text → Managed → List (Text × Text)
managed_values environ m =
    (codes "PATH", m.bin ++ prefixed (env_value environ (codes "PATH")))
    ∷ (codes "HERDR_CONFIG_PATH", m.herdr_config)
    ∷ (codes "PI_CODING_AGENT_DIR", m.pi_dir)
    ∷ (codes "FAMILIAR_RUNTIME_BIN", m.bin)
    ∷ (tiamat_url_env, m.url)
    ∷ (tiamat_token_file_env, m.token_file)
    ∷ []

abbrev pub Sets : List Text → List (Text × Text) → Type 0
Sets environ = All (λ p. env_find environ p.0 ≡ some p.1)

-- The six managed variables have the program's values in the server's environment, whatever the
-- parent's is: `PATH` is the runtime's directory in front of the parent's.
pub server_env-Sets :
    (environ : List Text) (m : Managed) → Sets (server_env environ m) (managed_values environ m)
unfolding server_env env_find split_variable split_at_equals
server_env-Sets environ m =
    let found = λ (k : Text).
      env_find-append (unmanaged environ) (managed_variables m (env_value environ (codes "PATH")))
        k in
    (
      found (codes "PATH"),
      (
        found (codes "HERDR_CONFIG_PATH"),
        (
          found (codes "PI_CODING_AGENT_DIR"),
          (
            found (codes "FAMILIAR_RUNTIME_BIN"),
            (found tiamat_url_env, (found tiamat_token_file_env, tt)),
          ),
        ),
      ),
    )

-- Every other variable is what it is in the parent's environment.
pub env_find-server_env :
    (environ : List Text) (m : Managed) (k : Text)
    → contains managed_keys k ≡ false
    → env_find (server_env environ m) k ≡ env_find environ k
unfolding server_env
env_find-server_env environ m k h =
    env_find-append (unmanaged environ) (managed_variables m (env_value environ (codes "PATH"))) k
    ∙ ap (λ r. first_some r (env_find (unmanaged environ) k))
        (unset m (env_value environ (codes "PATH")) k h)
    ∙ env_find-unmanaged environ k h
