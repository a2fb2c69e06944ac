-- ===== src/Session/Supervisor/Invariant.antt =====
-- What holds of every state that can be reached, in whatever order the goroutines and the processes go.
use familiar_fleet.Base.{
  ℕ, ◌-◌, ◌≤◌, Bool, true, false, ◌≡◌, ◌⊎◌, subst, some, List, [], ◌∷◌, Text, arith,
}
use familiar_fleet.Config.{tunnel_args_for_port}
use familiar_fleet.Session.Sshd.{Act, Attempt, listening, start_sshd_all}
use familiar_fleet.Session.Sshd.Configured.{Named, configured_port, start_sshd_all-Named}
use familiar_fleet.Session.Supervisor.Steps.{
  tunnel_sees_exit, tunnel_starts, main_takes_tui, tui_opens, sshd_refused, sshd_listens, Step,
  sshd_listens, sshd_refused, tui_opens, main_takes_tui, main_takes_server, main_takes_sshd,
  main_takes_end, main_signals, main_reaps, main_cancels, main_joins, main_cleans, tunnel_starts,
  tunnel_sees_exit, tunnel_stops, tunnel_reaps, tunnel_weighs, tunnel_wakes, tunnel_interrupted,
  server_exits, sshd_exits, tui_exits, ssh_exits, context_ends, Reach, here, next,
}
use familiar_fleet.Session.Supervisor.{
  die, Life, absent, is_alive, Main, starting, opening, selecting, closing_tui, cancelling,
  closing_sshd, joining, cleaning, closing_server, returned, Tunnel, unstarted, watching, closing,
  finished, Setup, Supervisor, begin, is_over,
}
use familiar_fleet.Session.Supervisor.MainMoves.{
  listen, refuse, open_tui, take_tui, take_server, take_sshd, take_end, signal_child, reap_child,
  cancel, join, clean_up,
}
use familiar_fleet.Session.Supervisor.TunnelMoves.{
  start_ssh, watch_ssh, stop_ssh, reap_ssh, weigh, wake, interrupt,
}

abbrev pub is_born : Life → Bool
is_born absent = false
is_born _ = true

-- the tunnel was started
abbrev pub Tunneled : Tunnel → Type 0
Tunneled unstarted = ⊥
Tunneled _ = Unit

abbrev Quiet : Tunnel → Type 0
Quiet unstarted = Unit
Quiet finished = Unit
Quiet _ = ⊥

abbrev Untouched : Supervisor → Type 0
Untouched f = f.server.signalled ≡ false

-- by where the main goroutine is
abbrev AtMain : Setup → Main → Supervisor → Type 0
AtMain u starting f =
    (f.tunnel ≡ unstarted)
    × (f.sshd.life ≡ absent)
    × (f.tui.life ≡ absent)
    × (f.cancelled ≡ false)
    × Untouched f
    × (f.forwards ≡ [])
AtMain u opening f =
    Tunneled f.tunnel
    × (f.tui.life ≡ absent)
    × (f.cancelled ≡ false)
    × Untouched f
    × (u.has_tui ≡ true)
AtMain u selecting f =
    Tunneled f.tunnel
    × (f.cancelled ≡ false)
    × Untouched f
    × ((u.has_tui ≡ false) ⊎ (is_born f.tui.life ≡ true))
AtMain u (closing_tui r) f =
    Tunneled f.tunnel × (f.cancelled ≡ false) × Untouched f × (is_born f.tui.life ≡ true)
AtMain u (cancelling b r) f =
    Tunneled f.tunnel
    × (is_alive f.tui.life ≡ false)
    × Untouched f
    × ((b ≡ false) ⊎ (f.tui.life ≡ absent))
AtMain u (closing_sshd b r) f =
    Tunneled f.tunnel
    × (is_alive f.tui.life ≡ false)
    × (f.cancelled ≡ true)
    × Untouched f
    × ((b ≡ false) ⊎ (f.tui.life ≡ absent))
AtMain u (joining b r) f =
    Tunneled f.tunnel
    × (is_alive f.tui.life ≡ false)
    × (f.cancelled ≡ true)
    × (is_alive f.sshd.life ≡ false)
    × Untouched f
    × ((b ≡ false) ⊎ (f.tui.life ≡ absent))
AtMain u (cleaning r) f =
    Quiet f.tunnel × (f.tui.life ≡ absent) × (is_alive f.sshd.life ≡ false) × Untouched f
AtMain u (closing_server r) f =
    Quiet f.tunnel × (f.tui.life ≡ absent) × (is_alive f.sshd.life ≡ false) × (u.spawned ≡ true)
AtMain u (returned r) f =
    Quiet f.tunnel × (is_alive f.tui.life ≡ false) × (is_alive f.sshd.life ≡ false)

-- by where the tunnel is
abbrev AtTunnel : Tunnel → Supervisor → Type 0
AtTunnel watching f = f.ssh_alive ≤ 1
AtTunnel closing f = (f.ssh_alive ≤ 1) × (is_over f ≡ true)
AtTunnel finished f = (f.ssh_alive ≡ 0) × (is_over f ≡ true)
AtTunnel _ f = f.ssh_alive ≡ 0

-- every ssh was started with these arguments
abbrev pub AllAre : List Text → List (List Text) → Type 0
AllAre args [] = Unit
AllAre args (a ∷ rest) = (a ≡ args) × AllAre args rest

pub record Inv (u : Setup) (f : Supervisor) : Type 0 where
  pub main : AtMain u f.main f
  pub tunnel : AtTunnel f.tunnel f
  pub server : (f.server.signalled ≡ false) ⊎ ((u.spawned ≡ true) × (f.tui.life ≡ absent))
  pub tui : (u.has_tui ≡ true) ⊎ (f.tui.life ≡ absent)
  pub sshd : (f.tunnel ≡ unstarted) ⊎ (is_born f.sshd.life ≡ true)
  pub born : is_born f.server.life ≡ true
  pub named : ((f.tunnel ≡ unstarted) × (f.forwards ≡ [])) ⊎ (configured_port f.acts ≡ some f.port)
  pub forwards : AllAre (tunnel_args_for_port u.paths u.enrollment f.port) f.forwards

begin-Inv : (u : Setup) → Inv u begin
unfolding begin
begin-Inv u = ground arith

module _ (u : Setup) (f : Supervisor) (h : Inv u f) where
  listen-Inv :
      (port : ℕ) (acts : List Act) → configured_port acts ≡ some port → Inv u (listen u port acts f)
  unfolding listen
  listen-Inv port acts e = ground arith

  refuse-Inv : (acts : List Act) → Inv u (refuse u acts f)
  unfolding refuse
  refuse-Inv acts = ground arith

  open_tui-Inv : (b : Bool) → Inv u (open_tui u b f)
  unfolding open_tui
  open_tui-Inv b = ground arith

  take_tui-Inv : (b : Bool) → Inv u (take_tui u b f)
  unfolding take_tui
  take_tui-Inv b = ground arith

  take_server-Inv : Inv u (take_server u f)
  unfolding take_server
  take_server-Inv = ground arith

  take_sshd-Inv : Inv u (take_sshd u f)
  unfolding take_sshd
  take_sshd-Inv = ground arith

  take_end-Inv : Inv u (take_end u f)
  unfolding take_end
  take_end-Inv = ground arith

  signal_child-Inv : Inv u (signal_child u f)
  unfolding signal_child
  signal_child-Inv = ground arith

  reap_child-Inv : Inv u (reap_child u f)
  unfolding reap_child
  reap_child-Inv = ground arith

  cancel-Inv : Inv u (cancel u f)
  unfolding cancel
  cancel-Inv = ground arith

  join-Inv : Inv u (join u f)
  unfolding join
  join-Inv = ground arith

  clean_up-Inv : Inv u (clean_up u f)
  unfolding clean_up
  clean_up-Inv = ground arith

  start_ssh-Inv : (b : Bool) → Inv u (start_ssh u b f)
  unfolding start_ssh
  start_ssh-Inv b = ground arith

  watch_ssh-Inv : (t : ℕ) → Inv u (watch_ssh u t f)
  unfolding watch_ssh
  watch_ssh-Inv t = ground arith

  stop_ssh-Inv : Inv u (stop_ssh u f)
  unfolding stop_ssh
  stop_ssh-Inv = ground arith

  reap_ssh-Inv : Inv u (reap_ssh u f)
  unfolding reap_ssh
  reap_ssh-Inv = ground arith

  weigh-Inv : Inv u (weigh u f)
  unfolding weigh
  weigh-Inv = ground arith

  wake-Inv : Inv u (wake u f)
  unfolding wake
  wake-Inv = ground arith

  interrupt-Inv : Inv u (interrupt u f)
  unfolding interrupt
  interrupt-Inv = ground arith

  server_exits-Inv : Inv u (record f { server = die f.server })
  server_exits-Inv = ground arith

  sshd_exits-Inv : Inv u (record f { sshd = die f.sshd })
  sshd_exits-Inv = ground arith

  tui_exits-Inv : Inv u (record f { tui = die f.tui })
  tui_exits-Inv = ground arith

  ssh_exits-Inv : Inv u (record f { ssh_alive = f.ssh_alive - 1 })
  ssh_exits-Inv = ground arith

  context_ends-Inv : Inv u (record f { ended = true })
  context_ends-Inv = ground arith

named_by :
    (attempts : List Attempt) (port : ℕ) (acts : List Act)
    → start_sshd_all attempts ≡ (listening port, acts)
    → configured_port acts ≡ some port
named_by attempts port acts e = subst Named e (start_sshd_all-Named attempts)

-- Every step keeps the invariant.
pub Step-Keeps : (u : Setup) {f g : Supervisor} → Step u f g → Inv u f → Inv u g
Step-Keeps u {f} (sshd_listens attempts port acts e) h =
    listen-Inv u f h port acts (named_by attempts port acts e)
Step-Keeps u {f} (sshd_refused attempts x acts e) h = refuse-Inv u f h acts
Step-Keeps u {f} (tui_opens b) h = open_tui-Inv u f h b
Step-Keeps u {f} (main_takes_tui b) h = take_tui-Inv u f h b
Step-Keeps u {f} main_takes_server h = take_server-Inv u f h
Step-Keeps u {f} main_takes_sshd h = take_sshd-Inv u f h
Step-Keeps u {f} main_takes_end h = take_end-Inv u f h
Step-Keeps u {f} main_signals h = signal_child-Inv u f h
Step-Keeps u {f} main_reaps h = reap_child-Inv u f h
Step-Keeps u {f} main_cancels h = cancel-Inv u f h
Step-Keeps u {f} main_joins h = join-Inv u f h
Step-Keeps u {f} main_cleans h = clean_up-Inv u f h
Step-Keeps u {f} (tunnel_starts b) h = start_ssh-Inv u f h b
Step-Keeps u {f} (tunnel_sees_exit t) h = watch_ssh-Inv u f h t
Step-Keeps u {f} tunnel_stops h = stop_ssh-Inv u f h
Step-Keeps u {f} tunnel_reaps h = reap_ssh-Inv u f h
Step-Keeps u {f} tunnel_weighs h = weigh-Inv u f h
Step-Keeps u {f} tunnel_wakes h = wake-Inv u f h
Step-Keeps u {f} tunnel_interrupted h = interrupt-Inv u f h
Step-Keeps u {f} server_exits h = server_exits-Inv u f h
Step-Keeps u {f} sshd_exits h = sshd_exits-Inv u f h
Step-Keeps u {f} tui_exits h = tui_exits-Inv u f h
Step-Keeps u {f} ssh_exits h = ssh_exits-Inv u f h
Step-Keeps u {f} context_ends h = context_ends-Inv u f h

pub Reach-Holds : (u : Setup) {f : Supervisor} → Reach u f → Inv u f
Reach-Holds u here = begin-Inv u
Reach-Holds u (next r s) = Step-Keeps u s (Reach-Holds u r)
