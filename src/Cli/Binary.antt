-- ===== src/Cli/Binary.antt =====
-- `FindBinary` of internal/client/supervise.go: exec.LookPath, filepath.Abs and filepath.EvalSymlinks are
-- parameters.
use familiar_fleet.Base.{
  ℕ, false, ◌&&◌, ◌≡◌, ◌≢◌, Option, none, some, [], ◌∷◌, Text, nat_eq, leb, arith, if◌then◌else◌,
  ◌>>=◌, bind-some, Bool-cases, ◌⊎◌, inl, inr,
}
use familiar_fleet.Text.{contains_any}
use familiar_fleet.State.{Paths, Enrollment}
use familiar_fleet.State.Grammar.{match_user}
use familiar_fleet.State.PublicKey.{KeyError, normalize_public_key}
use familiar_fleet.Config.{
  invalid_herdr_path, rendezvous_files, controller_files, write_runtime_config,
}

unfoldable pub find_binary_path :
    (look_path absolute eval_symlinks : Text → Option Text) → Text → Option Text
find_binary_path look_path absolute eval_symlinks name = do
  path ← look_path name
  whole ← absolute path
  real ← eval_symlinks whole
  if contains_any real (13 ∷ 10 ∷ []) then none else some real

module _ (look_path absolute eval_symlinks : Text → Option Text) (name real : Text) where
  find_binary_path-contains_any :
      find_binary_path look_path absolute eval_symlinks name ≡ some real
      → contains_any real (13 ∷ 10 ∷ []) ≡ false
  unfolding find_binary_path
  find_binary_path-contains_any h =
      let (path, e, after_path) = bind-some (look_path name) _ real h in
      let (whole, f, after_whole) = bind-some (absolute path) _ real after_path in
      let (found, g, tested) = bind-some (eval_symlinks whole) _ real after_whole in
      elim (Bool-cases (contains_any found (13 ∷ 10 ∷ []))) [
        | inl q ↦ absurd (ground (arith, tested, q))
        | inr q ↦ ground (arith, tested, q)
      ]

  module _ (paths : Paths) (e : Enrollment) (user : Text) (port : ℕ) where
    rendezvous_fine :
        (k : KeyError ⊎ Text)
        → contains_any real (13 ∷ 10 ∷ []) ≡ false
        → (rendezvous_files paths e user real port k).1 ≢ some invalid_herdr_path
    rendezvous_fine (inl x) h = λ q. ground (arith, q)
    rendezvous_fine (inr k) h = λ q. ground (arith, h, q)

    controller_fine :
        (k : KeyError ⊎ Text)
        → contains_any real (13 ∷ 10 ∷ []) ≡ false
        → (controller_files paths e user real port k).1 ≢ some invalid_herdr_path
    controller_fine (inl x) h = λ q. ground (arith, q)
    controller_fine (inr k) h = rendezvous_fine (normalize_public_key e.tunnel_host_key) h

    -- A path that `FindBinary` has returned is never one that `WriteRuntimeConfig` refuses.
    pub find_binary_path-write_runtime_config :
        find_binary_path look_path absolute eval_symlinks name ≡ some real
        → (write_runtime_config paths e user real port).1 ≢ some invalid_herdr_path
    unfolding write_runtime_config
    find_binary_path-write_runtime_config h =
        let plain = find_binary_path-contains_any h in
        elim (Bool-cases (match_user user)) [
          | inr q ↦ rw q (λ r. ground (arith, r))
          | inl q ↦ elim (Bool-cases (leb 1 port && leb port 65535)) [
            | inr k ↦ rw (q, k) (λ r. ground (arith, r))
            | inl k ↦
                rw (q, k) (controller_fine (normalize_public_key e.controller_public_key) plain)
          ]
        ]
