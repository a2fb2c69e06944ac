-- ===== src/Session/Supervisor/Ranks.antt =====
-- How far an invocation is from its end, once its context has ended.
use familiar_fleet.Base.{ℕ, ◌+◌, ◌*◌, ◌-◌, ◌<◌, Bool, true, false, ◌≡◌, ◌⊎◌, List, arith}
use familiar_fleet.Session.Sshd.{Act}
use familiar_fleet.Session.Supervisor.{
  die, Life, absent, alive, gone, Main, starting, opening, selecting, closing_tui, cancelling,
  closing_sshd, joining, cleaning, closing_server, returned, Tunnel, unstarted, checking, watching,
  closing, weighing, sleeping, finished, Setup, Supervisor,
}
use familiar_fleet.Session.Supervisor.MainMoves.{
  listen, refuse, open_tui, take_tui, take_server, take_sshd, take_end, signal_child, reap_child,
  cancel, join, clean_up,
}
use familiar_fleet.Session.Supervisor.TunnelMoves.{
  start_ssh, watch_ssh, stop_ssh, reap_ssh, weigh, wake, interrupt,
}
use familiar_fleet.Session.Supervisor.Steps.{
  Step, sshd_listens, sshd_refused, tui_opens, main_takes_tui, main_takes_server, main_takes_sshd,
  main_takes_end, main_signals, main_reaps, main_cancels, main_joins, main_cleans, tunnel_starts,
  tunnel_sees_exit, tunnel_stops, tunnel_reaps, tunnel_weighs, tunnel_wakes, tunnel_interrupted,
  server_exits, sshd_exits, tui_exits, ssh_exits, context_ends,
}

abbrev main_rank : Main → ℕ
main_rank starting = 9
main_rank opening = 8
main_rank selecting = 7
main_rank (closing_tui r) = 6
main_rank (cancelling b r) = 5
main_rank (closing_sshd b r) = 4
main_rank (joining b r) = 3
main_rank (cleaning r) = 2
main_rank (closing_server r) = 1
main_rank (returned r) = 0

abbrev tunnel_rank : Tunnel → ℕ
tunnel_rank unstarted = 0
tunnel_rank checking = 2
tunnel_rank watching = 4
tunnel_rank closing = 1
tunnel_rank weighing = 1
tunnel_rank sleeping = 3
tunnel_rank finished = 0

abbrev process_rank : Life → Bool → ℕ
process_rank alive true = 1
process_rank alive false = 2
process_rank absent true = 0
process_rank absent false = 1
process_rank gone true = 0
process_rank gone false = 1

-- How far an invocation is from its end.
unfoldable pub rank : Supervisor → ℕ
rank f =
    40 * main_rank f.main
    + 4 * tunnel_rank f.tunnel
    + process_rank f.server.life f.server.signalled
    + process_rank f.sshd.life f.sshd.signalled
    + process_rank f.tui.life f.tui.signalled
    + f.ssh_alive

abbrev pub Falls : Supervisor → Supervisor → Type 0
Falls f g = (g ≡ f) ⊎ (rank g < rank f)

module _ (u : Setup) (f : Supervisor) (e : f.ended ≡ true) where
  listen-Falls : (port : ℕ) (acts : List Act) → Falls f (listen u port acts f)
  unfolding listen rank
  listen-Falls port acts = ground (arith, e)

  refuse-Falls : (acts : List Act) → Falls f (refuse u acts f)
  unfolding refuse rank
  refuse-Falls acts = ground (arith, e)

  open_tui-Falls : (b : Bool) → Falls f (open_tui u b f)
  unfolding open_tui rank
  open_tui-Falls b = ground (arith, e)

  take_tui-Falls : (b : Bool) → Falls f (take_tui u b f)
  unfolding take_tui rank
  take_tui-Falls b = ground (arith, e)

  take_server-Falls : Falls f (take_server u f)
  unfolding take_server rank
  take_server-Falls = ground (arith, e)

  take_sshd-Falls : Falls f (take_sshd u f)
  unfolding take_sshd rank
  take_sshd-Falls = ground (arith, e)

  take_end-Falls : Falls f (take_end u f)
  unfolding take_end rank
  take_end-Falls = ground (arith, e)

  signal_child-Falls : Falls f (signal_child u f)
  unfolding signal_child rank
  signal_child-Falls = ground (arith, e)

  reap_child-Falls : Falls f (reap_child u f)
  unfolding reap_child rank
  reap_child-Falls = ground (arith, e)

  cancel-Falls : Falls f (cancel u f)
  unfolding cancel rank
  cancel-Falls = ground (arith, e)

  join-Falls : Falls f (join u f)
  unfolding join rank
  join-Falls = ground (arith, e)

  clean_up-Falls : Falls f (clean_up u f)
  unfolding clean_up rank
  clean_up-Falls = ground (arith, e)

  start_ssh-Falls : (b : Bool) → Falls f (start_ssh u b f)
  unfolding start_ssh rank
  start_ssh-Falls b = ground (arith, e)

  watch_ssh-Falls : (time : ℕ) → Falls f (watch_ssh u time f)
  unfolding watch_ssh rank
  watch_ssh-Falls time = ground (arith, e)

  stop_ssh-Falls : Falls f (stop_ssh u f)
  unfolding stop_ssh rank
  stop_ssh-Falls = ground (arith, e)

  reap_ssh-Falls : Falls f (reap_ssh u f)
  unfolding reap_ssh rank
  reap_ssh-Falls = ground (arith, e)

  weigh-Falls : Falls f (weigh u f)
  unfolding weigh rank
  weigh-Falls = ground (arith, e)

  wake-Falls : Falls f (wake u f)
  unfolding wake rank
  wake-Falls = ground (arith, e)

  interrupt-Falls : Falls f (interrupt u f)
  unfolding interrupt rank
  interrupt-Falls = ground (arith, e)

  server_exits-Falls : Falls f (record f { server = die f.server })
  unfolding rank
  server_exits-Falls = ground (arith, e)

  sshd_exits-Falls : Falls f (record f { sshd = die f.sshd })
  unfolding rank
  sshd_exits-Falls = ground (arith, e)

  tui_exits-Falls : Falls f (record f { tui = die f.tui })
  unfolding rank
  tui_exits-Falls = ground (arith, e)

  ssh_exits-Falls : Falls f (record f { ssh_alive = f.ssh_alive - 1 })
  unfolding rank
  ssh_exits-Falls = ground (arith, e)

  context_ends-Falls : Falls f (record f { ended = true })
  unfolding rank
  context_ends-Falls = ground (arith, e)

pub Step-Falls : (u : Setup) (f g : Supervisor) → f.ended ≡ true → Step u f g → Falls f g
Step-Falls u f g e (sshd_listens attempts port acts q) = listen-Falls u f e port acts
Step-Falls u f g e (sshd_refused attempts x acts q) = refuse-Falls u f e acts
Step-Falls u f g e (tui_opens b) = open_tui-Falls u f e b
Step-Falls u f g e (main_takes_tui b) = take_tui-Falls u f e b
Step-Falls u f g e main_takes_server = take_server-Falls u f e
Step-Falls u f g e main_takes_sshd = take_sshd-Falls u f e
Step-Falls u f g e main_takes_end = take_end-Falls u f e
Step-Falls u f g e main_signals = signal_child-Falls u f e
Step-Falls u f g e main_reaps = reap_child-Falls u f e
Step-Falls u f g e main_cancels = cancel-Falls u f e
Step-Falls u f g e main_joins = join-Falls u f e
Step-Falls u f g e main_cleans = clean_up-Falls u f e
Step-Falls u f g e (tunnel_starts b) = start_ssh-Falls u f e b
Step-Falls u f g e (tunnel_sees_exit t) = watch_ssh-Falls u f e t
Step-Falls u f g e tunnel_stops = stop_ssh-Falls u f e
Step-Falls u f g e tunnel_reaps = reap_ssh-Falls u f e
Step-Falls u f g e tunnel_weighs = weigh-Falls u f e
Step-Falls u f g e tunnel_wakes = wake-Falls u f e
Step-Falls u f g e tunnel_interrupted = interrupt-Falls u f e
Step-Falls u f g e server_exits = server_exits-Falls u f e
Step-Falls u f g e sshd_exits = sshd_exits-Falls u f e
Step-Falls u f g e tui_exits = tui_exits-Falls u f e
Step-Falls u f g e ssh_exits = ssh_exits-Falls u f e
Step-Falls u f g e context_ends = context_ends-Falls u f e

pub Step-ended : (u : Setup) {f g : Supervisor} → Step u f g → f.ended ≡ true → g.ended ≡ true
unfolding listen refuse open_tui take_tui take_server take_sshd take_end signal_child reap_child
    cancel join clean_up start_ssh watch_ssh stop_ssh reap_ssh weigh wake interrupt
Step-ended u {f} (sshd_listens attempts port acts q) e = ground (arith, e)
Step-ended u {f} (sshd_refused attempts x acts q) e = ground (arith, e)
Step-ended u {f} (tui_opens b) e = ground (arith, e)
Step-ended u {f} (main_takes_tui b) e = ground (arith, e)
Step-ended u {f} main_takes_server e = ground (arith, e)
Step-ended u {f} main_takes_sshd e = ground (arith, e)
Step-ended u {f} main_takes_end e = ground (arith, e)
Step-ended u {f} main_signals e = ground (arith, e)
Step-ended u {f} main_reaps e = ground (arith, e)
Step-ended u {f} main_cancels e = ground (arith, e)
Step-ended u {f} main_joins e = ground (arith, e)
Step-ended u {f} main_cleans e = ground (arith, e)
Step-ended u {f} (tunnel_starts b) e = ground (arith, e)
Step-ended u {f} (tunnel_sees_exit t) e = ground (arith, e)
Step-ended u {f} tunnel_stops e = ground (arith, e)
Step-ended u {f} tunnel_reaps e = ground (arith, e)
Step-ended u {f} tunnel_weighs e = ground (arith, e)
Step-ended u {f} tunnel_wakes e = ground (arith, e)
Step-ended u {f} tunnel_interrupted e = ground (arith, e)
Step-ended u {f} server_exits e = ground (arith, e)
Step-ended u {f} sshd_exits e = ground (arith, e)
Step-ended u {f} tui_exits e = ground (arith, e)
Step-ended u {f} ssh_exits e = ground (arith, e)
Step-ended u {f} context_ends e = ground (arith, e)
