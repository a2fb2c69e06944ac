-- ===== src/Session/Supervisor.antt =====
-- `RunInteractive` from the running server on, and `RunTunnel`, of internal/client/supervise.go: the
-- main goroutine, `tunnelLoop`, and the processes that they start, as one step relation. A step is
-- what one goroutine does between two points at which another may run, or an event outside; where it
-- does not apply it changes nothing.
pub mod MainMoves
pub mod TunnelMoves
pub mod Steps
pub mod Invariant
pub mod Ranks
pub mod Reconnecting
pub mod Ending
pub mod Stopped
use familiar_fleet.Base.{
  ℕ, suc, ◌+◌, ◌-◌, Bool, true, false, not, ◌&&◌, ◌||◌, ◌≡◌, Option, none, some, List, [], ◌∷◌,
  Text, nat_eq, ◌==◌, ltb, if◌then◌else◌,
}
use familiar_fleet.Config.{tunnel_args_for_port}
use familiar_fleet.Session.{
  Failure, server_exited, sshd_exited, start_tui_failed, tui_failed, infrastructure_failed,
}
use familiar_fleet.Session.Sshd.{Act, Attempt, SshdError, listening, refused, start_sshd_all}
use familiar_fleet.State.{Paths, Enrollment}
use familiar_fleet.Tunnel.{Round, attempt_after, ran_for, no_start}

-- Where a process is: not started, running, or gone. The channel `done` of a process that is gone is
-- ready for good, since it is closed.
pub data Life : Type 0 where
  absent alive gone : Life

abbrev pub is_gone : Life → Bool
is_gone gone = true
is_gone _ = false

abbrev pub is_alive : Life → Bool
is_alive alive = true
is_alive _ = false

-- A process, and whether this invocation has sent it a signal.
pub record Process : Type 0 where
  pub life : Life
  pub signalled : Bool

abbrev pub unborn : Process
unborn = record { life = absent; signalled = false }

abbrev pub running : Process
running = record { life = alive; signalled = false }

abbrev pub die : Process → Process
die p = if is_alive p.life then record p { life = gone } else p

-- child.stop up to its wait for the exit: a process that is gone gets no signal
abbrev pub signal : Process → Process
signal p = if is_alive p.life then record p { signalled = true } else p

-- Where the main goroutine is; `cleans` says that it goes on to `cleanup`, and the error is what it
-- will return.
pub data Main : Type 0 where
  starting : Main
  opening : Main
  selecting : Main
  closing_tui : Option Failure → Main
  cancelling : (cleans : Bool) → Option Failure → Main
  closing_sshd : (cleans : Bool) → Option Failure → Main
  joining : (cleans : Bool) → Option Failure → Main
  cleaning : Option Failure → Main
  closing_server : Option Failure → Main
  returned : Option Failure → Main

-- Where `tunnelLoop` is: at the head of its loop, waiting for ssh, stopping it, behind its exit or its
-- failed start, or waiting for the next attempt.
pub data Tunnel : Type 0 where
  unstarted checking watching closing weighing sleeping finished : Tunnel

-- What does not change: whether this is `RunInteractive`, whether it has spawned the server, and what
-- the arguments of ssh are made of.
pub record Setup : Type 0 where
  pub has_tui : Bool
  pub spawned : Bool
  pub paths : Paths
  pub enrollment : Enrollment

-- `ended` is the end of the caller's context, `cancelled` that of the context of the infrastructure
-- alone. `ssh_alive` counts the ssh processes that run; `acts` is what the start of sshd did, and
-- `forwards` the arguments of each ssh that was started, the last one first.
pub record Supervisor : Type 0 where
  pub main : Main
  pub tunnel : Tunnel
  pub ended : Bool
  pub cancelled : Bool
  pub server : Process
  pub sshd : Process
  pub tui : Process
  pub ssh_alive : ℕ
  pub attempt : ℕ
  pub port : ℕ
  pub acts : List Act
  pub forwards : List (List Text)

unfoldable pub begin : Supervisor
begin = record {
  main = starting;
  tunnel = unstarted;
  ended = false;
  cancelled = false;
  server = running;
  sshd = unborn;
  tui = unborn;
  ssh_alive = 0;
  attempt = 0;
  port = 0;
  acts = [];
  forwards = [];
}

-- runCtx.Err() != nil
abbrev pub is_over : Supervisor → Bool
is_over f = f.ended || f.cancelled
