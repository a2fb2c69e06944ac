-- ===== src/Session/Supervisor/MainMoves.antt =====
-- The moves of the main goroutine of `RunInteractive` and `RunTunnel`, with `startInfrastructure`,
-- `cleanup` and its `child.stop`.
use familiar_fleet.Session.Supervisor.{
  is_gone, running, signal, Main, starting, opening, selecting, closing_tui, cancelling,
  closing_sshd, joining, cleaning, closing_server, returned, Tunnel, checking, finished, Setup,
  Supervisor,
}
use familiar_fleet.Base.{
  ℕ, Bool, true, false, ◌&&◌, Option, none, some, List, nat_eq, if◌then◌else◌,
}
use familiar_fleet.Session.{
  Failure, server_exited, sshd_exited, start_tui_failed, tui_failed, infrastructure_failed,
}
use familiar_fleet.Session.Sshd.{Act}

module _ (u : Setup) where
  -- startInfrastructure, once sshd answers: the tunnel starts
  abbrev listen_at : Main → ℕ → List Act → Supervisor → Supervisor
  listen_at starting port acts f = record f {
    main = if u.has_tui then opening else selecting;
    tunnel = checking;
    sshd = running;
    port = port;
    acts = acts;
  }
  listen_at _ port acts f = f

  unfoldable pub listen : (port : ℕ) → List Act → Supervisor → Supervisor
  listen port acts f = listen_at f.main port acts f

  abbrev refuse_at : Main → List Act → Supervisor → Supervisor
  refuse_at starting acts f = record f {
    main =
        if u.has_tui
        then cleaning (some infrastructure_failed)
        else returned (some infrastructure_failed);
    cancelled = true;
    acts = acts;
  }
  refuse_at _ acts f = f

  -- startInfrastructure, when startSSHD fails
  unfoldable pub refuse : List Act → Supervisor → Supervisor
  refuse acts f = refuse_at f.main acts f

  abbrev open_at : Main → (starts : Bool) → Supervisor → Supervisor
  open_at opening true f = record f { main = selecting; tui = running }
  open_at opening false f = record f { main = cancelling true (some start_tui_failed) }
  open_at _ starts f = f

  -- the start of the TUI
  unfoldable pub open_tui : (starts : Bool) → Supervisor → Supervisor
  open_tui starts f = open_at f.main starts f

  abbrev tui_result : Bool → Option Failure
  tui_result true = none
  tui_result false = some tui_failed

  abbrev take_tui_at : Main → (fine : Bool) → Supervisor → Supervisor
  take_tui_at selecting fine f =
      if is_gone f.tui.life then record f { main = cancelling false (tui_result fine) } else f
  take_tui_at _ fine f = f

  -- the `select`: the TUI has exited
  unfoldable pub take_tui : (fine : Bool) → Supervisor → Supervisor
  take_tui fine f = take_tui_at f.main fine f

  -- the TUI is stopped where there is one
  abbrev leave : Option Failure → Main
  leave r = if u.has_tui then closing_tui r else cancelling false r

  abbrev take_server_at : Main → Supervisor → Supervisor
  take_server_at selecting f =
      if u.has_tui && u.spawned && is_gone f.server.life
      then record f { main = leave (some server_exited) }
      else f
  take_server_at _ f = f

  -- the `select`: the server has exited; the channel of a reused server is nil
  unfoldable pub take_server : Supervisor → Supervisor
  take_server f = take_server_at f.main f

  abbrev take_sshd_at : Main → Supervisor → Supervisor
  take_sshd_at selecting f =
      if is_gone f.sshd.life then record f { main = leave (some sshd_exited) } else f
  take_sshd_at _ f = f

  -- the `select`: sshd has exited
  unfoldable pub take_sshd : Supervisor → Supervisor
  take_sshd f = take_sshd_at f.main f

  abbrev take_end_at : Main → Supervisor → Supervisor
  take_end_at selecting f = if f.ended then record f { main = leave none } else f
  take_end_at _ f = f

  -- the `select`: the context has ended
  unfoldable pub take_end : Supervisor → Supervisor
  take_end f = take_end_at f.main f

  abbrev signal_at : Main → Supervisor → Supervisor
  signal_at (closing_tui r) f = record f { tui = signal f.tui }
  signal_at (closing_sshd b r) f = record f { sshd = signal f.sshd }
  signal_at (closing_server r) f = record f { server = signal f.server }
  signal_at _ f = f

  -- child.stop of the main goroutine: SIGTERM, and SIGKILL once the grace is over
  unfoldable pub signal_child : Supervisor → Supervisor
  signal_child f = signal_at f.main f

  abbrev reap_at : Main → Supervisor → Supervisor
  reap_at (closing_tui r) f =
      if is_gone f.tui.life then record f { main = cancelling false r } else f
  reap_at (closing_sshd b r) f = if is_gone f.sshd.life then record f { main = joining b r } else f
  reap_at (closing_server r) f = if is_gone f.server.life then record f { main = returned r } else f
  reap_at _ f = f

  -- the end of child.stop: the process is gone
  unfoldable pub reap_child : Supervisor → Supervisor
  reap_child f = reap_at f.main f

  abbrev cancel_at : Main → Supervisor → Supervisor
  cancel_at (cancelling b r) f = record f { main = closing_sshd b r; cancelled = true }
  cancel_at _ f = f

  -- stopInfrastructure, and the same lines of RunTunnel: the call of `cancel`
  unfoldable pub cancel : Supervisor → Supervisor
  cancel f = cancel_at f.main f

  abbrev is_finished : Tunnel → Bool
  is_finished finished = true
  is_finished _ = false

  abbrev join_at : Main → Supervisor → Supervisor
  join_at (joining b r) f =
      if is_finished f.tunnel then record f { main = if b then cleaning r else returned r } else f
  join_at _ f = f

  -- `<-tunnelDone`
  unfoldable pub join : Supervisor → Supervisor
  join f = join_at f.main f

  abbrev clean_at : Main → Supervisor → Supervisor
  clean_at (cleaning r) f =
      if u.spawned
      then record f { main = closing_server r; server = record f.server { signalled = true } }
      else record f { main = returned r }
  clean_at _ f = f

  -- cleanup up to child.stop: a spawned server is told to stop
  unfoldable pub clean_up : Supervisor → Supervisor
  clean_up f = clean_at f.main f
