-- ===== src/Session/Sshd.antt =====
-- The callback sshd of internal/client/supervise.go: `child.stop`, `startSSHD`, `waitHerdrReady`,
-- `startInfrastructure` and `RunTunnel`. What the machine answers is given as events.
pub mod Bounded
pub mod Configured
use familiar_fleet.Base.{
  zero, ℕ, suc, ◌+◌, Bool, true, false, Option, none, some, List, [], ◌∷◌, ◌++◌, if◌then◌else◌,
}

-- What is done to a process, or to the file that it reads.
pub data Act : Type 0 where
  write_config : (port : ℕ) → Act
  start_sshd : Act
  sshd_gone : Act
  terminate : Act
  kill : Act
  start_tunnel : Act
  end_tunnel : Act

-- What happens to a process that is stopped: it has exited before, or within the grace, or not.
pub data Stopping : Type 0 where
  exited : Stopping
  obeys : Stopping
  resists : Stopping

-- child.stop; what it ends with is that the process is gone
unfoldable pub stop_child : Stopping → List Act
stop_child exited = sshd_gone ∷ []
stop_child obeys = terminate ∷ sshd_gone ∷ []
stop_child resists = terminate ∷ kill ∷ sshd_gone ∷ []

-- What the `select` of `startSSHD` receives: the exit, a tick with whether the port answers, the
-- deadline or the context's end, the last two with what stopping does.
pub data Wake : Type 0 where
  exits : Wake
  tick : (answers : Bool) → Wake
  deadline : Stopping → Wake
  cancelled : Stopping → Wake

-- One attempt: the port, if one is free, whether the configuration is written and sshd starts.
pub record Attempt : Type 0 where
  pub port : Option ℕ
  pub writes : Bool
  pub starts : Bool
  pub wakes : List Wake

pub data SshdError : Type 0 where
  no_port no_config not_started context_done exited_early timed_out : SshdError

-- How one attempt ends, and how `startSSHD` does: `stuck` while the events leave it in the `select`.
pub data Tried : Type 0 where
  ready : Tried
  again : SshdError → Tried
  given_up : SshdError → Tried
  stuck : Tried

pub data Sshd : Type 0 where
  listening : (port : ℕ) → Sshd
  refused : Option SshdError → Sshd
  waiting : Sshd

-- the inner loop
unfoldable pub await_sshd : List Wake → Tried × List Act
await_sshd [] = (stuck, [])
await_sshd (exits ∷ wakes) = (again exited_early, sshd_gone ∷ [])
await_sshd (tick answers ∷ wakes) =
    let rest = await_sshd wakes in if answers then (ready, []) else rest
await_sshd (deadline s ∷ wakes) = (again timed_out, stop_child s)
await_sshd (cancelled s ∷ wakes) = (given_up context_done, stop_child s)

abbrev pub before : {A : Type 0} → List Act → A × List Act → A × List Act
before first (a, acts) = (a, first ++ acts)

abbrev pub started : Bool → List Wake → Tried × List Act
started false wakes = (given_up not_started, [])
started true wakes = before (start_sshd ∷ []) (await_sshd wakes)

abbrev pub configured : Bool → Attempt → ℕ → Tried × List Act
configured false a port = (given_up no_config, [])
configured true a port = before (write_config port ∷ []) (started a.starts a.wakes)

abbrev pub on_port : Attempt → Option ℕ → Tried × List Act
on_port a none = (given_up no_port, [])
on_port a (some port) = configured a.writes a port

abbrev port_of : Option ℕ → ℕ
port_of none = 0
port_of (some p) = p

-- the body of the loop over the attempts
unfoldable pub try_sshd : Attempt → Tried × List Act
try_sshd a = on_port a a.port

abbrev pub go_on : Attempt → Tried × List Act → (SshdError → Sshd × List Act) → Sshd × List Act
go_on a (ready, acts) rest = (listening (port_of a.port), acts)
go_on a (again e, acts) rest = before acts (rest e)
go_on a (given_up e, acts) rest = (refused (some e), acts)
go_on a (stuck, acts) rest = (waiting, acts)

-- startSSHD with so many attempts left, and the last error
unfoldable pub start_sshd_from : ℕ → Option SshdError → List Attempt → Sshd × List Act
start_sshd_from zero last attempts = (refused last, [])
start_sshd_from (suc left) last [] = (waiting, [])
start_sshd_from (suc left) last (a ∷ attempts) =
    go_on a (try_sshd a) (λ e. start_sshd_from left (some e) attempts)

-- startSSHD
abbrev pub sshd_attempts : ℕ
sshd_attempts = 5

unfoldable pub start_sshd_all : List Attempt → Sshd × List Act
start_sshd_all attempts = start_sshd_from sshd_attempts none attempts

-- What `RunTunnel` waits for: the exit of sshd, or the context's end.
pub data TunnelEnd : Type 0 where
  sshd_exits : TunnelEnd
  context_ends : Stopping → TunnelEnd

pub data TunnelExit : Type 0 where
  tunnel_success : TunnelExit
  sshd_exited : TunnelExit
  infrastructure_refused : Option SshdError → TunnelExit
  tunnel_waiting : TunnelExit

abbrev pub end_tunnel_run : Option TunnelEnd → TunnelExit × List Act
end_tunnel_run none = (tunnel_waiting, [])
end_tunnel_run (some sshd_exits) = (sshd_exited, stop_child exited ++ end_tunnel ∷ [])
end_tunnel_run (some (context_ends s)) = (tunnel_success, stop_child s ++ end_tunnel ∷ [])

-- startInfrastructure, then the `select` of `RunTunnel` and what follows it
abbrev pub with_sshd : Sshd → Option TunnelEnd → TunnelExit × List Act
with_sshd waiting e = (tunnel_waiting, [])
with_sshd (refused x) e = (infrastructure_refused x, [])
with_sshd (listening port) e = before (start_tunnel ∷ []) (end_tunnel_run e)

-- RunTunnel
unfoldable pub run_tunnel : List Attempt → Option TunnelEnd → TunnelExit × List Act
run_tunnel attempts e = let (s, acts) = start_sshd_all attempts in before acts (with_sshd s e)

-- What `waitHerdrReady` sees after each probe: whether the probe says that it runs, and then the
-- server's exit, a tick, the deadline or the context's end.
pub data Probe : Type 0 where
  server_exits probe_tick probe_deadline probe_cancelled : Probe

pub data Readiness : Type 0 where
  server_ready server_gone not_in_time no_context still_waiting : Readiness

abbrev after_probe : Probe → Readiness → Readiness
after_probe server_exits rest = server_gone
after_probe probe_tick rest = rest
after_probe probe_deadline rest = not_in_time
after_probe probe_cancelled rest = no_context

-- waitHerdrReady; with `says_running` whether the output of a probe has `"running":true`
unfoldable pub wait_herdr_ready : List (Bool × Probe) → Readiness
wait_herdr_ready [] = still_waiting
wait_herdr_ready ((says_running, p) ∷ probes) =
    let rest = wait_herdr_ready probes in if says_running then server_ready else after_probe p rest
