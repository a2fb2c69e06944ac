-- ===== src/Session/Sshd/Configured.antt =====
-- Which port sshd listens on.
use familiar_fleet.Base.{
  Option-cases, ℕ, zero, suc, ◌≡◌, refl, Option, none, some, List, [], ◌∷◌, ◌++◌, arith,
}
use familiar_fleet.Session.Sshd.{
  Act, write_config, stop_child, Wake, exits, tick, deadline, cancelled, Attempt, SshdError, Tried,
  ready, again, given_up, stuck, Sshd, listening, refused, waiting, await_sshd, before, try_sshd,
  go_on, start_sshd_from, start_sshd_all, port_of,
}

-- The port that the configuration of sshd names at the end.
abbrev later : Option ℕ → Option ℕ → Option ℕ
later none p = p
later (some q) p = some q

unfoldable pub configured_port : List Act → Option ℕ
configured_port [] = none
configured_port (write_config p ∷ acts) = later (configured_port acts) (some p)
configured_port (_ ∷ acts) = configured_port acts

later-later : (a b c : Option ℕ) → later (later a b) c ≡ later a (later b c)
later-later none b c = refl
later-later (some x) b c = refl

configured_port-append :
    (xs ys : List Act)
    → configured_port (xs ++ ys) ≡ later (configured_port ys) (configured_port xs)
unfolding configured_port
configured_port-append [] ys = ground (arith, Option-cases (configured_port ys))
configured_port-append (x ∷ xs) ys = ground (
  arith,
  configured_port-append xs ys,
  later-later (configured_port ys) (configured_port xs) (configured_port (x ∷ [])),
)

abbrev pub Named : Sshd × List Act → Type 0
Named (listening p, acts) = configured_port acts ≡ some p
Named (_, acts) = Unit

before-Named : (acts : List Act) (r : Sshd × List Act) → Named r → Named (before acts r)
before-Named acts (listening p, more) h = ground (arith, h, configured_port-append acts more)
before-Named acts (refused e, more) h = tt
before-Named acts (waiting, more) h = tt

await_sshd-configured : (wakes : List Wake) → configured_port (await_sshd wakes).1 ≡ none
unfolding await_sshd configured_port stop_child
await_sshd-configured [] = refl
await_sshd-configured (exits ∷ wakes) = refl
await_sshd-configured (tick b ∷ wakes) = ground (arith, await_sshd-configured wakes)
await_sshd-configured (deadline s ∷ wakes) = ground arith
await_sshd-configured (cancelled s ∷ wakes) = ground arith

-- An attempt that leaves sshd listening has configured its port.
try_sshd-configured :
    (a : Attempt) → (try_sshd a).0 ≡ ready → configured_port (try_sshd a).1 ≡ some (port_of a.port)
unfolding try_sshd configured_port
try_sshd-configured a h = ground (arith, h, await_sshd-configured a.wakes)

go_on-Named :
    (a : Attempt) (r : Tried × List Act) (rest : SshdError → Sshd × List Act)
    → try_sshd a ≡ r
    → ((e : SshdError) → Named (rest e))
    → Named (go_on a r rest)
go_on-Named a (ready, acts) rest h k = ground (arith, h, try_sshd-configured a)
go_on-Named a (again x, acts) rest h k = before-Named acts (rest x) (k x)
go_on-Named a (given_up x, acts) rest h k = tt
go_on-Named a (stuck, acts) rest h k = tt

start_sshd_from-Named :
    (n : ℕ) (last : Option SshdError) (attempts : List Attempt)
    → Named (start_sshd_from n last attempts)
unfolding start_sshd_from
start_sshd_from-Named zero last attempts = tt
start_sshd_from-Named (suc n) last [] = tt
start_sshd_from-Named (suc n) last (a ∷ attempts) =
    go_on-Named a (try_sshd a) _ refl (λ e. start_sshd_from-Named n (some e) attempts)

-- The port that `startSSHD` returns is the one that the configuration of sshd names, which every
-- attempt writes anew.
pub start_sshd_all-Named : (attempts : List Attempt) → Named (start_sshd_all attempts)
unfolding start_sshd_all
start_sshd_all-Named attempts = start_sshd_from-Named 5 none attempts
