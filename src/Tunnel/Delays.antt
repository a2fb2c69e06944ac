-- ===== src/Tunnel/Delays.antt =====
-- The bounds of the delays between two attempts at the tunnel.
use familiar_fleet.Base.{zero, ℕ, suc, ◌*◌, ◌^◌, ◌≤◌, ◌<◌, List, [], ◌∷◌, All, arith}
use familiar_fleet.Tunnel.{
  second, backoff, backoff_base, max_jitter, at_most, tunnel_loop, attempt_after, Round,
}

-- What is documented of rand.Int63n.
abbrev pub IsInt63n : (ℕ → ℕ) → Type 0
IsInt63n random = (n : ℕ) → random (suc n) < suc n

power_of_five : (n : ℕ) → (1 ≤ 2 ^ at_most 5 n) × (2 ^ at_most 5 n ≤ 32)
power_of_five zero = omega arith
power_of_five (suc zero) = omega arith
power_of_five (suc (suc zero)) = omega arith
power_of_five (suc (suc (suc zero))) = omega arith
power_of_five (suc (suc (suc (suc zero)))) = omega arith
power_of_five (suc (suc (suc (suc (suc zero))))) = omega arith
power_of_five (suc (suc (suc (suc (suc (suc n)))))) = ground arith

backoff_base_bounds : (n : ℕ) → (second ≤ backoff_base n) × (backoff_base n ≤ 30 * second)
unfolding backoff_base
backoff_base_bounds n = ground (arith, power_of_five n)

-- Each delay is at least the base of its attempt, which is at least a second, and at most thirty
-- seconds, the jitter included.
pub backoff_bounds :
    (random : ℕ → ℕ) (attempt : ℕ)
    → IsInt63n random
    → (second ≤ backoff_base attempt)
      × (backoff_base attempt ≤ backoff random attempt)
      × (backoff random attempt ≤ 30 * second)
unfolding backoff max_jitter
backoff_bounds random attempt r =
    let base = backoff_base attempt in
    ground (arith, backoff_base_bounds attempt, r (max_jitter base))

abbrev pub Sources : List (Round × (ℕ → ℕ)) → Type 0
Sources = All (λ p. IsInt63n p.1)

abbrev pub InBounds : ℕ → Type 0
InBounds delay = (second ≤ delay) × (delay ≤ 30 * second)

-- Every delay of the tunnel's loop is between one second and thirty, where each result of
-- rand.Int63n is below its argument.
pub tunnel_loop_bounds :
    (attempt : ℕ) (rounds : List (Round × (ℕ → ℕ)))
    → Sources rounds
    → All InBounds (tunnel_loop attempt rounds)
unfolding tunnel_loop
tunnel_loop_bounds attempt [] s = tt
tunnel_loop_bounds attempt ((r, random) ∷ rounds) (s, ss) =
    let now = attempt_after attempt r in
    let (low, mid, high) = backoff_bounds random now s in
    ((omega (arith, low, mid), high), tunnel_loop_bounds (suc now) rounds ss)
