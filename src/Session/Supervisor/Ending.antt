-- ===== src/Session/Supervisor/Ending.antt =====
-- Once its context has ended, an invocation comes to its end.
use familiar_fleet.Base.{
  Bool-cases, ap, ℕ, zero, suc, ◌<◌, Bool, true, false, ◌≡◌, ◌≢◌, ◌⊎◌, inl, inr, refl, Option, some,
  List, [], ◌∷◌, arith,
}
use familiar_fleet.Session.{Failure}
use familiar_fleet.Session.Sshd.{
  sshd_gone, start_sshd, write_config, Act, Attempt, cancelled, exited, context_done,
  start_sshd_all, start_sshd_from, try_sshd, await_sshd, stop_child,
}
use familiar_fleet.Session.Supervisor.{
  Life, absent, alive, gone, Main, starting, opening, selecting, closing_tui, cancelling,
  closing_sshd, joining, cleaning, closing_server, returned, Tunnel, unstarted, checking, watching,
  closing, weighing, sleeping, finished, Setup, Supervisor,
}
use familiar_fleet.Session.Supervisor.MainMoves.{
  signal_child, refuse, open_tui, take_end, reap_child, cancel, join, clean_up,
}
use familiar_fleet.Session.Supervisor.TunnelMoves.{start_ssh, stop_ssh, reap_ssh, weigh, interrupt}
use familiar_fleet.Session.Supervisor.Steps.{
  main_signals, Step, context_ends, tunnel_wakes, main_signals, sshd_refused, tui_opens,
  main_takes_end, main_reaps, main_cancels, main_joins, main_cleans, tunnel_starts, tunnel_stops,
  tunnel_reaps, tunnel_weighs, tunnel_interrupted, server_exits, sshd_exits, tui_exits, ssh_exits,
  Reach, next,
}
use familiar_fleet.Session.Supervisor.Invariant.{Tunneled, Inv, Reach-Holds}
use familiar_fleet.Session.Supervisor.Ranks.{rank, Falls, Step-Falls, Step-ended}

-- A step of the program's own, or the exit of a process that the program has told to stop. Other exits,
-- the timer of a delay and the end of the context may come, but need not.
abbrev pub IsOwn : (u : Setup) {f g : Supervisor} → Step u f g → Type 0
IsOwn u {f} server_exits = f.server.signalled ≡ true
IsOwn u {f} sshd_exits = f.sshd.signalled ≡ true
IsOwn u {f} tui_exits = f.tui.signalled ≡ true
IsOwn u {f} ssh_exits = f.tunnel ≡ closing
IsOwn u tunnel_wakes = ⊥
IsOwn u context_ends = ⊥
IsOwn u _ = Unit

-- Whatever order the steps that change something are taken in, they come to the return of the
-- invocation, and until then there is such a step that is its own.
pub data Ends (u : Setup) : Supervisor → Type 0 where
  ended_with : {f : Supervisor} (x : Option Failure) → f.main ≡ returned x → Ends u f
  goes_on :
      {f : Supervisor} (g : Supervisor) (s : Step u f g)
      → IsOwn u s
      → g ≢ f
      → ((k : Supervisor) → Step u f k → k ≢ f → Ends u k)
      → Ends u f

abbrev Lowers : Setup → Supervisor → Type 0
Lowers u f = (g : Supervisor) × (s : Step u f g) × IsOwn u s × (rank g < rank f)

-- sshd that is stopped at its first wait
abbrev stopped_early : Attempt
stopped_early = record {
  port = some 1;
  writes = true;
  starts = true;
  wakes = cancelled exited ∷ [];
}

abbrev gone_at_once : List Act
gone_at_once = write_config 1 ∷ start_sshd ∷ sshd_gone ∷ []

module _ (u : Setup) (f : Supervisor) (h : Inv u f) (e : f.ended ≡ true) where
  abbrev Lowering : Main → Type 0
  Lowering m = f.main ≡ m → Lowers u f

  starting_lowers : Lowering starting
  unfolding refuse rank start_sshd_all start_sshd_from try_sshd await_sshd stop_child
  starting_lowers q = (
    _,
    sshd_refused (stopped_early ∷ []) (some context_done) gone_at_once refl,
    tt,
    ground (arith, q),
  )

  closing-Lowers : (n : ℕ) → f.ssh_alive ≡ n → f.tunnel ≡ closing → Lowers u f
  unfolding reap_ssh rank
  closing-Lowers zero a q = (_, tunnel_reaps, tt, ground (arith, a, q))
  closing-Lowers (suc n) a q = (_, ssh_exits, q, omega (arith, a))

  tunnel-Lowers : (t : Tunnel) → f.tunnel ≡ t → Tunneled t → (t ≡ finished) ⊎ Lowers u f
  unfolding start_ssh stop_ssh reap_ssh weigh interrupt rank
  tunnel-Lowers unstarted q k = absurd k
  tunnel-Lowers checking q k = inr (_, tunnel_starts true, tt, ground (arith, q, e))
  tunnel-Lowers watching q k = inr (_, tunnel_stops, tt, ground (arith, q, e))
  tunnel-Lowers closing q k = inr (closing-Lowers f.ssh_alive refl q)
  tunnel-Lowers weighing q k = inr (_, tunnel_weighs, tt, ground (arith, q, e))
  tunnel-Lowers sleeping q k = inr (_, tunnel_interrupted, tt, ground (arith, q, e))
  tunnel-Lowers finished q k = inl refl

  joining_lowers : (b : Bool) (x : Option Failure) → Lowering (joining b x)
  unfolding join rank
  joining_lowers b x q = elim (tunnel-Lowers f.tunnel refl (ground (arith, h.main, q))) [
    | inl k ↦ (_, main_joins, tt, ground (arith, q, k))
    | inr l ↦ l
  ]

  tui_lowers : (x : Option Failure) (l : Life) → f.tui.life ≡ l → Lowering (closing_tui x)
  unfolding reap_child signal_child rank
  tui_lowers x absent a q = absurd (ground (arith, h.main, a, q))
  tui_lowers x alive a q = elim (Bool-cases f.tui.signalled) [
    | inl g ↦ (_, tui_exits, g, ground (arith, a))
    | inr g ↦ (_, main_signals, tt, ground (arith, a, q, g))
  ]
  tui_lowers x gone a q = (_, main_reaps, tt, ground (arith, a, q))

  sshd_lowers :
      (b : Bool) (x : Option Failure) (l : Life) → f.sshd.life ≡ l → Lowering (closing_sshd b x)
  unfolding reap_child signal_child rank
  sshd_lowers b x absent a q = absurd (ground (arith, h.main, h.sshd, a, q))
  sshd_lowers b x alive a q = elim (Bool-cases f.sshd.signalled) [
    | inl g ↦ (_, sshd_exits, g, ground (arith, a))
    | inr g ↦ (_, main_signals, tt, ground (arith, a, q, g))
  ]
  sshd_lowers b x gone a q = (_, main_reaps, tt, ground (arith, a, q))

  server_lowers : (x : Option Failure) (l : Life) → f.server.life ≡ l → Lowering (closing_server x)
  unfolding reap_child signal_child rank
  server_lowers x absent a q = absurd (ground (arith, h.born, a, q))
  server_lowers x alive a q = elim (Bool-cases f.server.signalled) [
    | inl g ↦ (_, server_exits, g, ground (arith, a))
    | inr g ↦ (_, main_signals, tt, ground (arith, a, q, g))
  ]
  server_lowers x gone a q = (_, main_reaps, tt, ground (arith, a, q))

  opening_lowers : Lowering opening
  unfolding open_tui rank
  opening_lowers q = (_, tui_opens false, tt, ground (arith, q))

  selecting_lowers : Lowering selecting
  unfolding take_end rank
  selecting_lowers q = (_, main_takes_end, tt, ground (arith, q, e))

  cancelling_lowers : (b : Bool) (x : Option Failure) → Lowering (cancelling b x)
  unfolding cancel rank
  cancelling_lowers b x q = (_, main_cancels, tt, ground (arith, q))

  cleaning_lowers : (x : Option Failure) → Lowering (cleaning x)
  unfolding clean_up rank
  cleaning_lowers x q = (_, main_cleans, tt, ground (arith, q))

  -- A step lowers the rank, or the invocation has returned.
  goes_down : (m : Main) → f.main ≡ m → ((x : Option Failure) × (m ≡ returned x)) ⊎ Lowers u f
  goes_down starting q = inr (starting_lowers q)
  goes_down opening q = inr (opening_lowers q)
  goes_down selecting q = inr (selecting_lowers q)
  goes_down (closing_tui x) q = inr (tui_lowers x f.tui.life refl q)
  goes_down (cancelling b x) q = inr (cancelling_lowers b x q)
  goes_down (closing_sshd b x) q = inr (sshd_lowers b x f.sshd.life refl q)
  goes_down (joining b x) q = inr (joining_lowers b x q)
  goes_down (cleaning x) q = inr (cleaning_lowers x q)
  goes_down (closing_server x) q = inr (server_lowers x f.server.life refl q)
  goes_down (returned x) q = inl (x, refl)

rank-ne : (f g : Supervisor) → rank g < rank f → g ≢ f
rank-ne f g l e = absurd (omega (arith, l, ap rank e))

below : (f g : Supervisor) → Falls f g → g ≢ f → rank g < rank f
below f g (inl e) ne = absurd (ne e)
below f g (inr l) ne = l

within_rank :
    (u : Setup) (n : ℕ) (f : Supervisor) → rank f < n → Reach u f → f.ended ≡ true → Ends u f
within_rank u zero f l r e = absurd (omega (arith, l))
within_rank u (suc n) f l r e = elim (goes_down u f (Reach-Holds u r) e f.main refl) [
  | inl (x, q) ↦ ended_with x q
  | inr (g, s, own, lower) ↦ goes_on g s own (rank-ne f g lower) λ k t ne.
      within_rank u n k (omega (arith, l, below f k (Step-Falls u f k e t) ne)) (next r t)
        (Step-ended u t e)
]

-- From every state that can be reached and in which the caller's context has ended, `RunInteractive`
-- and `RunTunnel` return: whichever steps that change something follow, the exits of processes among
-- them, and in whatever order, they come to the return. Before it there always is a step that is the
-- program's own, or the exit of a process that the program has told to stop: nothing else is waited
-- for, not even the timer of a delay.
pub Reach-Ends : (u : Setup) (f : Supervisor) → Reach u f → f.ended ≡ true → Ends u f
Reach-Ends u f r e = within_rank u (suc (rank f)) f (omega arith) r e
