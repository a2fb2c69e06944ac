-- ===== src/Session.antt =====
-- internal/client/herdrsession.go and internal/client/supervise.go: the named Herdr server, who
-- owns it, and what one invocation does to it. What the machine answers is given as events, and a
-- function returns its result with the commands that it gave, in their order.
pub mod Child
pub mod Ownership
pub mod Sshd
pub mod Stopping
pub mod Supervisor
use familiar_fleet.Base.{
  inr, inl, ◌⊎◌, Bool, true, false, ◌&&◌, ◌||◌, Option, none, some, List, [], ◌∷◌, ◌++◌, Text,
  if◌then◌else◌,
}

pub record HerdrServerStatus : Type 0 where
  pub running : Bool
  pub version : Text
  pub compatible : Option Bool

abbrev compatible_or_silent : Option Bool → Bool
compatible_or_silent none = true
compatible_or_silent (some b) = b

-- Healthy
abbrev pub healthy : HerdrServerStatus → Bool
healthy s = s.running && compatible_or_silent s.compatible

-- The exit of `herdr status server --json`, with what its output decodes to.
pub data Reply : Type 0 where
  exit_failure : Reply
  undecodable : Reply
  decoded : HerdrServerStatus → Reply

abbrev pub Answer : Type 0
Answer = Option HerdrServerStatus

abbrev pub no_server : HerdrServerStatus
no_server = record { running = false; version = []; compatible = none }

-- QueryHerdrServer: `none` is the error
unfoldable pub query_herdr_server : Reply → Answer
query_herdr_server exit_failure = some no_server
query_herdr_server undecodable = none
query_herdr_server (decoded s) = some s

pub data Failure : Type 0 where
  parse_status : Failure
  stop_failed : Failure
  did_not_stop : Failure
  context_done : Failure
  incompatible_server : Text → Failure
  start_server_failed : Failure
  server_not_ready : Failure
  server_exited : Failure
  no_longer_running : Failure
  infrastructure_failed : Failure
  start_tui_failed : Failure
  tui_failed : Failure
  sshd_exited : Failure

-- What a function returns, when it returns: `waiting` while the events leave it in a `select`.
pub data Exit : Type 0 where
  success : Exit
  failure : Failure → Exit
  waiting : Exit

-- What follows a poll of the stopping server: the ticker, the deadline, or the context's end.
pub data Wake : Type 0 where
  tick : Wake
  deadline : Wake
  cancelled : Wake

abbrev pub seen_stopped : Answer → Bool
seen_stopped none = false
seen_stopped (some s) = if s.running then false else true

abbrev stop_deadline : Bool → Exit
stop_deadline true = failure did_not_stop
stop_deadline false = failure stop_failed

-- the loop of `StopHerdrSession` after `server stop`, whose exit status is `fine`
unfoldable pub poll_stopped : Bool → List (Reply × Wake) → Exit
poll_stopped fine [] = waiting
poll_stopped fine ((r, tick) ∷ polls) =
    let rest = poll_stopped fine polls in
    if seen_stopped (query_herdr_server r) then success else rest
poll_stopped fine ((r, deadline) ∷ polls) =
    if seen_stopped (query_herdr_server r) then success else stop_deadline fine
poll_stopped fine ((r, cancelled) ∷ polls) =
    if seen_stopped (query_herdr_server r) then success else failure context_done

pub data Command : Type 0 where
  start_server : Command
  stop_server : Command
  kill_server : Command
  start_infrastructure : Command
  stop_infrastructure : Command
  start_tui : Command
  stop_tui : Command

abbrev stop_from : Answer → Bool → List (Reply × Wake) → Exit × List Command
stop_from none fine polls = (failure parse_status, [])
stop_from (some s) fine polls =
    if s.running then (poll_stopped fine polls, stop_server ∷ []) else (success, [])

-- StopHerdrSession
unfoldable pub stop_herdr_session : Reply → Bool → List (Reply × Wake) → Exit × List Command
stop_herdr_session first fine polls = stop_from (query_herdr_server first) fine polls

-- What the machine does with one invocation. `ended` is the order in which the channels of the
-- last `select` become ready.
pub data Ended : Type 0 where
  tui_done : Bool → Ended
  server_done : Ended
  sshd_done : Ended
  context_ended : Ended

pub record Events : Type 0 where
  pub status : Reply
  pub server_starts : Bool
  pub server_ready : Bool
  pub infrastructure_starts : Bool
  pub tui_starts : Bool
  pub ended : List Ended
  pub stop_status : Reply
  pub stop_fine : Bool
  pub stop_polls : List (Reply × Wake)

-- `spawned`: this invocation is the parent of the server.
pub record HerdrServer : Type 0 where
  pub spawned : Bool

abbrev pub Ensured : Type 0
Ensured = Failure ⊎ HerdrServer

-- ensureHerdrServer, from the start of a server on
abbrev spawn : Events → Ensured × List Command
spawn e =
    if e.server_starts
    then (if e.server_ready
        then (inr (record { spawned = true }), start_server ∷ [])
        else (inl server_not_ready, start_server ∷ kill_server ∷ []))
    else (inl start_server_failed, [])

abbrev ensure_from : Events → Answer → Ensured × List Command
ensure_from e none = (inl parse_status, [])
ensure_from e (some s) =
    if healthy s
    then (inr (record { spawned = false }), [])
    else if s.running
    then (inl (incompatible_server s.version), [])
    else spawn e

-- ensureHerdrServer
unfoldable pub ensure_herdr_server : Events → Ensured × List Command
ensure_herdr_server e = ensure_from e (query_herdr_server e.status)

-- stopHerdrServer: a failure is only logged
unfoldable pub stop_herdr_server : Events → List Command
stop_herdr_server e = (stop_herdr_session e.stop_status e.stop_fine e.stop_polls).1

-- cleanup
unfoldable pub cleanup : Events → HerdrServer → List Command
cleanup e server = if server.spawned then stop_herdr_server e ++ kill_server ∷ [] else []

abbrev tui_result : Bool → Exit
tui_result true = success
tui_result false = failure tui_failed

-- the `select` of `RunInteractive`: the channel of a server that is not a child is nil, and never
-- ready
unfoldable pub await : HerdrServer → List Ended → Exit × List Command
await server [] = (waiting, [])
await server (tui_done fine ∷ es) = (tui_result fine, stop_infrastructure ∷ [])
await server (server_done ∷ es) =
    let rest = await server es in
    if server.spawned then (failure server_exited, stop_tui ∷ stop_infrastructure ∷ []) else rest
await server (sshd_done ∷ es) = (failure sshd_exited, stop_tui ∷ stop_infrastructure ∷ [])
await server (context_ended ∷ es) = (success, stop_tui ∷ stop_infrastructure ∷ [])

abbrev before : List Command → Exit × List Command → Exit × List Command
before first (x, cs) = (x, first ++ cs)

abbrev interact : Events → Ensured × List Command → Exit × List Command
interact e (inl x, first) = (failure x, first)
interact e (inr server, first) = before first (
    if e.infrastructure_starts
    then (if e.tui_starts
        then before (start_infrastructure ∷ start_tui ∷ []) (await server e.ended)
        else (
          failure start_tui_failed,
          start_infrastructure ∷ stop_infrastructure ∷ cleanup e server,
        ))
    else (failure infrastructure_failed, cleanup e server))

-- RunInteractive
unfoldable pub run_interactive : Events → Exit × List Command
run_interactive e = interact e (ensure_herdr_server e)

-- superviseAdoptedHerdr: each element is a tick with its query, or the context's end
unfoldable pub supervise_adopted_herdr : Events → List (Option Reply) → Exit × List Command
supervise_adopted_herdr e [] = (waiting, [])
supervise_adopted_herdr e (none ∷ es) = (success, stop_herdr_server e)
supervise_adopted_herdr e (some r ∷ es) =
    let rest = supervise_adopted_herdr e es in
    if seen_stopped (query_herdr_server r) then (failure no_longer_running, []) else rest

-- the `select` of `RunHerdr`: whether the server's exit comes before the context's end
abbrev await_server : Events → Option Bool → Exit × List Command
await_server e none = (waiting, [])
await_server e (some true) = (failure server_exited, [])
await_server e (some false) = (success, stop_herdr_server e ++ kill_server ∷ [])

abbrev supervise :
    Events → Option Bool → List (Option Reply) → Ensured × List Command → Exit × List Command
supervise e exits ticks (inl x, first) = (failure x, first)
supervise e exits ticks (inr server, first) =
    before first (if server.spawned then await_server e exits else supervise_adopted_herdr e ticks)

-- RunHerdr
unfoldable pub run_herdr : Events → Option Bool → List (Option Reply) → Exit × List Command
run_herdr e exits ticks = supervise e exits ticks (ensure_herdr_server e)
