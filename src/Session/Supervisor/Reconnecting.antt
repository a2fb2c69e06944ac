-- ===== src/Session/Supervisor/Reconnecting.antt =====
-- The tunnel does not give up while its context lasts.
use familiar_fleet.Base.{ℕ, zero, suc, ◌≤◌, true, false, ◌≡◌, ◌≢◌, refl, ◌∙◌, arith}
use familiar_fleet.Session.Supervisor.{
  Tunnel, unstarted, checking, watching, closing, weighing, sleeping, finished, Setup, Supervisor,
  is_over,
}
use familiar_fleet.Session.Supervisor.TunnelMoves.{start_ssh, watch_ssh, weigh, wake}
use familiar_fleet.Session.Supervisor.Steps.{
  Step, tunnel_starts, tunnel_sees_exit, tunnel_weighs, tunnel_wakes, Reach,
}
use familiar_fleet.Session.Supervisor.Invariant.{Inv, Reach-Holds}

-- One state leads to another by steps.
pub data Leads (u : Setup) : Supervisor → Supervisor → Type 0 where
  there : {f : Supervisor} → Leads u f f
  onward : {f g k : Supervisor} → Step u f g → Leads u g k → Leads u f k

-- An ssh that the tunnel's goroutine waits for runs, and the main goroutine is where it was.
pub record IsForwarding (f g : Supervisor) : Type 0 where
  pub watched : g.tunnel ≡ watching
  pub alive : g.ssh_alive ≡ 1
  pub lasting : is_over g ≡ false
  pub main : g.main ≡ f.main
  pub port : g.port ≡ f.port

abbrev pub Reconnects : Setup → Supervisor → Type 0
Reconnects u f = (g : Supervisor) × Leads u f g × IsForwarding f g

module _ (u : Setup) where
  from_checking :
      (f : Supervisor) → f.tunnel ≡ checking → f.ssh_alive ≡ 0 → is_over f ≡ false → Reconnects u f
  unfolding start_ssh
  from_checking f t a o = (
    start_ssh u true f,
    onward (tunnel_starts true) there,
    record {
      watched = ground (arith, t, o);
      alive = ground (arith, t, a, o);
      lasting = ground (arith, t, o);
      main = ground (arith, t, o);
      port = ground (arith, t, o);
    },
  )

  moved_on :
      (f g : Supervisor)
      → Step u f g
      → g.main ≡ f.main
      → g.port ≡ f.port
      → Reconnects u g
      → Reconnects u f
  moved_on f g s m p (k, l, i) = (
    k,
    onward s l,
    record {
      watched = i.watched;
      alive = i.alive;
      lasting = i.lasting;
      main = i.main ∙ m;
      port = i.port ∙ p;
    },
  )

  from_sleeping :
      (f : Supervisor) → f.tunnel ≡ sleeping → f.ssh_alive ≡ 0 → is_over f ≡ false → Reconnects u f
  unfolding wake
  from_sleeping f t a o =
      moved_on f (wake u f) tunnel_wakes (ground (arith, t)) (ground (arith, t))
        (from_checking (wake u f) (ground (arith, t)) (ground (arith, t, a)) (ground (arith, t, o)))

  from_weighing :
      (f : Supervisor) → f.tunnel ≡ weighing → f.ssh_alive ≡ 0 → is_over f ≡ false → Reconnects u f
  unfolding weigh
  from_weighing f t a o =
      moved_on f (weigh u f) tunnel_weighs (ground (arith, t, o)) (ground (arith, t, o)) (
        from_sleeping (weigh u f) (ground (arith, t, o)) (ground (arith, t, a, o))
          (ground (arith, t, o)))

  from_watching :
      (f : Supervisor) (n : ℕ)
      → f.ssh_alive ≡ n
      → n ≤ 1
      → f.tunnel ≡ watching
      → is_over f ≡ false
      → Reconnects u f
  unfolding watch_ssh
  from_watching f zero a l t o =
      moved_on f (watch_ssh u 0 f) (tunnel_sees_exit 0) (ground (arith, t, a))
        (ground (arith, t, a))
        (from_weighing (watch_ssh u 0 f) (ground (arith, t, a)) (ground (arith, t, a))
          (ground (arith, t, a, o)))
  from_watching f (suc n) a l t o = (
    f,
    there,
    record { watched = t; alive = omega (arith, a, l); lasting = o; main = refl; port = refl },
  )

  from_tunnel :
      (f : Supervisor)
      → Inv u f
      → is_over f ≡ false
      → (t : Tunnel) → f.tunnel ≡ t
      → t ≢ unstarted
      → Reconnects u f
  from_tunnel f h o unstarted q s = absurd (s refl)
  from_tunnel f h o checking q s = from_checking f q (ground (arith, h.tunnel, q)) o
  from_tunnel f h o watching q s =
      from_watching f f.ssh_alive refl (ground (arith, h.tunnel, q)) q o
  from_tunnel f h o closing q s = absurd (ground (arith, h.tunnel, q, o))
  from_tunnel f h o weighing q s = from_weighing f q (ground (arith, h.tunnel, q)) o
  from_tunnel f h o sleeping q s = from_sleeping f q (ground (arith, h.tunnel, q)) o
  from_tunnel f h o finished q s = absurd (ground (arith, h.tunnel, q, o))

-- From every state that can be reached after the tunnel's goroutine has started and in which neither
-- context has ended, steps lead to one in which exactly one ssh runs, to the same port and with that
-- goroutine waiting for it, while the main goroutine stays where it is: the loop has not given up,
-- however many attempts have failed.
pub Reach-Reconnects :
    (u : Setup) (f : Supervisor)
    → Reach u f
    → is_over f ≡ false
    → f.tunnel ≢ unstarted
    → Reconnects u f
Reach-Reconnects u f r o s = from_tunnel u f (Reach-Holds u r) o f.tunnel refl s
