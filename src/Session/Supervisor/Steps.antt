-- ===== src/Session/Supervisor/Steps.antt =====
-- The steps of an invocation, and what they reach.
use familiar_fleet.Session.Supervisor.MainMoves.{
  listen, refuse, open_tui, take_tui, take_server, take_sshd, take_end, signal_child, reap_child,
  cancel, join, clean_up,
}
use familiar_fleet.Session.Supervisor.TunnelMoves.{
  start_ssh, watch_ssh, stop_ssh, reap_ssh, weigh, wake, interrupt,
}
use familiar_fleet.Session.Supervisor.{die, Setup, Supervisor, begin}
use familiar_fleet.Base.{ℕ, ◌-◌, Bool, true, ◌≡◌, Option, List, nat_eq}
use familiar_fleet.Session.Sshd.{Act, Attempt, SshdError, listening, refused, start_sshd_all}

module _ (u : Setup) where
  -- The program's steps, and the events outside: a process exits, or the context ends.
  pub data Step (f : Supervisor) : Supervisor → Type 0 where
    sshd_listens :
        (attempts : List Attempt) (port : ℕ) (acts : List Act)
        → start_sshd_all attempts ≡ (listening port, acts)
        → Step f (listen u port acts f)
    sshd_refused :
        (attempts : List Attempt) (e : Option SshdError) (acts : List Act)
        → start_sshd_all attempts ≡ (refused e, acts)
        → Step f (refuse u acts f)
    tui_opens : (starts : Bool) → Step f (open_tui u starts f)
    main_takes_tui : (fine : Bool) → Step f (take_tui u fine f)
    main_takes_server : Step f (take_server u f)
    main_takes_sshd : Step f (take_sshd u f)
    main_takes_end : Step f (take_end u f)
    main_signals : Step f (signal_child u f)
    main_reaps : Step f (reap_child u f)
    main_cancels : Step f (cancel u f)
    main_joins : Step f (join u f)
    main_cleans : Step f (clean_up u f)
    tunnel_starts : (starts : Bool) → Step f (start_ssh u starts f)
    tunnel_sees_exit : (time : ℕ) → Step f (watch_ssh u time f)
    tunnel_stops : Step f (stop_ssh u f)
    tunnel_reaps : Step f (reap_ssh u f)
    tunnel_weighs : Step f (weigh u f)
    tunnel_wakes : Step f (wake u f)
    tunnel_interrupted : Step f (interrupt u f)
    server_exits : Step f (record f { server = die f.server })
    sshd_exits : Step f (record f { sshd = die f.sshd })
    tui_exits : Step f (record f { tui = die f.tui })
    ssh_exits : Step f (record f { ssh_alive = f.ssh_alive - 1 })
    context_ends : Step f (record f { ended = true })

  -- The states that can be reached from the call.
  pub data Reach : Supervisor → Type 0 where
    here : Reach begin
    next : {f g : Supervisor} → Reach f → Step f g → Reach g
