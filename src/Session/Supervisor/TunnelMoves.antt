-- ===== src/Session/Supervisor/TunnelMoves.antt =====
-- The moves of `tunnelLoop`.
use familiar_fleet.Session.Supervisor.{
  Tunnel, checking, watching, closing, weighing, sleeping, finished, Setup, Supervisor, is_over,
}
use familiar_fleet.Base.{ℕ, suc, Bool, ◌∷◌, nat_eq, ◌==◌, if◌then◌else◌}
use familiar_fleet.Config.{tunnel_args_for_port}
use familiar_fleet.Tunnel.{attempt_after, ran_for}

module _ (u : Setup) where
  abbrev start_ssh_at : Tunnel → (starts : Bool) → Supervisor → Supervisor
  start_ssh_at checking starts f =
      if is_over f
      then record f { tunnel = finished }
      else if starts
      then record f {
        tunnel = watching;
        ssh_alive = suc f.ssh_alive;
        forwards = tunnel_args_for_port u.paths u.enrollment f.port ∷ f.forwards;
      }
      else record f { tunnel = weighing }
  start_ssh_at _ starts f = f

  -- tunnelLoop: the head of the loop and the start of ssh
  unfoldable pub start_ssh : (starts : Bool) → Supervisor → Supervisor
  start_ssh starts f = start_ssh_at f.tunnel starts f

  abbrev watch_at : Tunnel → (time : ℕ) → Supervisor → Supervisor
  watch_at watching time f =
      if f.ssh_alive == 0
      then record f { tunnel = weighing; attempt = attempt_after f.attempt (ran_for time) }
      else f
  watch_at _ time f = f

  -- tunnelLoop: ssh has exited after so long
  unfoldable pub watch_ssh : (time : ℕ) → Supervisor → Supervisor
  watch_ssh time f = watch_at f.tunnel time f

  abbrev stop_ssh_at : Tunnel → Supervisor → Supervisor
  stop_ssh_at watching f = if is_over f then record f { tunnel = closing } else f
  stop_ssh_at _ f = f

  -- tunnelLoop: the context has ended while ssh runs
  unfoldable pub stop_ssh : Supervisor → Supervisor
  stop_ssh f = stop_ssh_at f.tunnel f

  abbrev reap_ssh_at : Tunnel → Supervisor → Supervisor
  reap_ssh_at closing f = if f.ssh_alive == 0 then record f { tunnel = finished } else f
  reap_ssh_at _ f = f

  -- tunnelLoop: the end of child.stop
  unfoldable pub reap_ssh : Supervisor → Supervisor
  reap_ssh f = reap_ssh_at f.tunnel f

  abbrev weigh_at : Tunnel → Supervisor → Supervisor
  weigh_at weighing f =
      if is_over f
      then record f { tunnel = finished }
      else record f { tunnel = sleeping; attempt = suc f.attempt }
  weigh_at _ f = f

  -- tunnelLoop: the test behind the exit of ssh, and the delay
  unfoldable pub weigh : Supervisor → Supervisor
  weigh f = weigh_at f.tunnel f

  abbrev wake_at : Tunnel → Supervisor → Supervisor
  wake_at sleeping f = record f { tunnel = checking }
  wake_at _ f = f

  -- tunnelLoop: the timer
  unfoldable pub wake : Supervisor → Supervisor
  wake f = wake_at f.tunnel f

  abbrev interrupt_at : Tunnel → Supervisor → Supervisor
  interrupt_at sleeping f = if is_over f then record f { tunnel = finished } else f
  interrupt_at _ f = f

  -- tunnelLoop: the context ends the delay
  unfoldable pub interrupt : Supervisor → Supervisor
  interrupt f = interrupt_at f.tunnel f
