-- ===== src/Tunnel.antt =====
-- internal/client/supervise.go: the reconnecting reverse tunnel, with times in nanoseconds.
pub mod Delays
use familiar_fleet.Base.{
  ℕ, suc, ◌+◌, ◌-◌, ◌*◌, ◌/◌, ◌^◌, Bool, List, [], ◌∷◌, ltb, leb, if◌then◌else◌,
}

abbrev pub second : ℕ
second = 1000000000

abbrev pub minute : ℕ
minute = 60 * second

abbrev pub at_most : ℕ → ℕ → ℕ
at_most limit n = if ltb limit n then limit else n

-- `base` of `backoff`; attempts count from 0, so that the shift is a power of two
unfoldable pub backoff_base : ℕ → ℕ
backoff_base attempt = at_most (30 * second) (second * 2 ^ at_most 5 attempt)

-- `maxJitter` of `backoff`
unfoldable pub max_jitter : ℕ → ℕ
max_jitter base = if ltb (30 * second) (base + base / 5) then 30 * second - base else base / 5

-- backoff; `random` is rand.Int63n, whose result is below its argument
unfoldable pub backoff : (random : ℕ → ℕ) → ℕ → ℕ
backoff random attempt =
    let base = backoff_base attempt in
    let jitter = max_jitter base in if leb jitter 0 then base else base + random (suc jitter)

-- One round of the loop: ssh does not start, or it runs for a time.
pub data Round : Type 0 where
  no_start : Round
  ran_for : ℕ → Round

-- The attempt that the delay after a round is computed from.
unfoldable pub attempt_after : ℕ → Round → ℕ
attempt_after attempt no_start = attempt
attempt_after attempt (ran_for time) = if leb (2 * minute) time then 0 else attempt

-- tunnelLoop: the delays, until the context ends; each round has its own random source
unfoldable pub tunnel_loop : ℕ → List (Round × (ℕ → ℕ)) → List ℕ
tunnel_loop attempt [] = []
tunnel_loop attempt ((r, random) ∷ rounds) =
    let now = attempt_after attempt r in backoff random now ∷ tunnel_loop (suc now) rounds
