-- ===== src/Session/Supervisor/Stopped.antt =====
-- What an invocation does to its processes and to the server.
use familiar_fleet.Base.{ℕ, ◌≤◌, true, false, ◌≡◌, ◌⊎◌, inl, inr, Option, some, [], arith}
use familiar_fleet.Config.{tunnel_args_for_port}
use familiar_fleet.Session.{Failure}
use familiar_fleet.Session.Sshd.Configured.{configured_port}
use familiar_fleet.Session.Supervisor.{absent, is_alive, returned, Setup, Supervisor}
use familiar_fleet.Session.Supervisor.Steps.{Reach}
use familiar_fleet.Session.Supervisor.Invariant.{AllAre, Reach-Holds}

module _ (u : Setup) (f : Supervisor) (r : Reach u f) where
  -- In whatever order the goroutines and the processes went: where `RunInteractive` or `RunTunnel` has
  -- returned, no TUI, no sshd and no ssh that it has started still runs.
  pub Reach-IsStopped :
      (x : Option Failure)
      → f.main ≡ returned x
      → (is_alive f.tui.life ≡ false) × (is_alive f.sshd.life ≡ false) × (f.ssh_alive ≡ 0)
  Reach-IsStopped x e = let h = Reach-Holds u r in ground (arith, h.main, h.tunnel, e)

  -- `RunInteractive` and `RunTunnel` signal or stop the Herdr server only where the same call of
  -- `RunInteractive` has spawned it and has not started its TUI.
  pub Reach-IsSparing : f.server.signalled ≡ true → (u.spawned ≡ true) × (f.tui.life ≡ absent)
  Reach-IsSparing e = let h = Reach-Holds u r in ground (arith, h.server, e)

  -- At most one ssh runs at a time, and each that was started forwards to the port that the
  -- configuration of the running sshd names.
  pub Reach-IsForwarding :
      (f.ssh_alive ≤ 1)
      × ((f.forwards ≡ [])
          ⊎ ((p : ℕ) × (configured_port f.acts ≡ some p)
              × AllAre (tunnel_args_for_port u.paths u.enrollment p) f.forwards))
  Reach-IsForwarding =
      let h = Reach-Holds u r in
      (
        ground (arith, h.main, h.tunnel),
        elim h.named [ inl (e, none_yet) ↦ inl none_yet | inr e ↦ inr (f.port, e, h.forwards) ],
      )
