-- ===== src/Session/Ownership.antt =====
-- Which invocations end the named Herdr server.
use familiar_fleet.Base.{
  if◌then◌else◌, ℕ, suc, Bool, true, false, ◌≡◌, ◌≢◌, Option, none, some, List, [], ◌∷◌, ◌++◌, any,
  arith, refl,
}
use familiar_fleet.Session.{
  Events, Ended, HerdrServer, Command, Reply, HerdrServerStatus, await, run_interactive, run_herdr,
  ensure_herdr_server, cleanup, stop_herdr_server, stop_herdr_session, query_herdr_server, healthy,
  start_server, stop_server, kill_server, start_tui, start_infrastructure, stop_infrastructure,
  tui_done, server_done, sshd_done, context_ended, success, waiting, supervise_adopted_herdr,
}

abbrev pub is_end : Command → Bool
is_end stop_server = true
is_end kill_server = true
is_end _ = false

abbrev pub is_stop : Command → Bool
is_stop stop_server = true
is_stop _ = false

abbrev pub is_start_server : Command → Bool
is_start_server start_server = true
is_start_server _ = false

abbrev pub is_start_tui : Command → Bool
is_start_tui start_tui = true
is_start_tui _ = false

any-append :
    (p : Command → Bool) (xs ys : List Command) → any p xs ≡ false → any p (xs ++ ys) ≡ any p ys
any-append p [] ys h = refl
any-append p (x ∷ xs) ys h = ground (arith, any-append p xs ys)

-- The last `select` gives no command that starts or ends the server.
await-no_end :
    (server : HerdrServer) (es : List Ended)
    → (any is_end (await server es).1 ≡ false) × (any is_start_server (await server es).1 ≡ false)
unfolding await
await-no_end server [] = ground arith
await-no_end server (tui_done fine ∷ es) = ground arith
await-no_end server (server_done ∷ es) = ground (arith, await-no_end server es)
await-no_end server (sshd_done ∷ es) = ground arith
await-no_end server (context_ended ∷ es) = ground arith

-- An interactive invocation that finds a healthy server gives no command that starts, stops or
-- kills a server, however it goes on and however it ends.
pub run_interactive_reused :
    (e : Events) (s : HerdrServerStatus)
    → query_herdr_server e.status ≡ some s
    → healthy s ≡ true
    → (any is_end (run_interactive e).1 ≡ false)
      × (any is_start_server (run_interactive e).1 ≡ false)
unfolding run_interactive ensure_herdr_server cleanup
run_interactive_reused e s q h =
    ground (arith, q, h, await-no_end (record { spawned = false }) e.ended)

-- An interactive invocation that has started its TUI leaves the server running, whether it has
-- started the server or found it: it neither stops nor kills it.
pub run_interactive_tui :
    (e : Events)
    → any is_start_tui (run_interactive e).1 ≡ true
    → any is_end (run_interactive e).1 ≡ false
unfolding run_interactive ensure_herdr_server cleanup stop_herdr_server stop_herdr_session
run_interactive_tui e h = ground (
  arith,
  await-no_end (record { spawned = false }) e.ended,
  await-no_end (record { spawned = true }) e.ended,
)

abbrev pub count : (Command → Bool) → List Command → ℕ
count p [] = 0
count p (c ∷ cs) = if p c then suc (count p cs) else count p cs

abbrev pub starts_infrastructure : Command → Bool
starts_infrastructure start_infrastructure = true
starts_infrastructure _ = false

abbrev pub stops_infrastructure : Command → Bool
stops_infrastructure stop_infrastructure = true
stops_infrastructure _ = false

-- The last `select` stops the infrastructure when it ends.
await-stops :
    (server : HerdrServer) (es : List Ended)
    → (await server es).0 ≢ waiting
    → (count stops_infrastructure (await server es).1 ≡ 1)
      × (count starts_infrastructure (await server es).1 ≡ 0)
unfolding await
await-stops server [] h = absurd (h refl)
await-stops server (tui_done fine ∷ es) h = ground arith
await-stops server (server_done ∷ es) h = ground (arith, await-stops server es)
await-stops server (sshd_done ∷ es) h = ground arith
await-stops server (context_ended ∷ es) h = ground arith

-- An interactive invocation that returns has stopped the sshd and the tunnel as often as it has
-- started them.
pub run_interactive_balanced :
    (e : Events)
    → (run_interactive e).0 ≢ waiting
    → count starts_infrastructure (run_interactive e).1
      ≡ count stops_infrastructure (run_interactive e).1
unfolding run_interactive ensure_herdr_server cleanup stop_herdr_server stop_herdr_session
run_interactive_balanced e h = ground (
  arith,
  await-stops (record { spawned = false }) e.ended,
  await-stops (record { spawned = true }) e.ended,
)

adopted_stops :
    (e : Events) (es : List (Option Reply))
    → (supervise_adopted_herdr e es).0 ≡ success
    → (supervise_adopted_herdr e es).1 ≡ stop_herdr_server e
unfolding supervise_adopted_herdr
adopted_stops e [] h = absurd (ground arith)
adopted_stops e (none ∷ es) h = ground arith
adopted_stops e (some r ∷ es) h = ground (arith, adopted_stops e es)

-- The service returns with success only after it has told the server to stop, adopted or spawned,
-- where the server still runs at that time.
pub run_herdr_stops :
    (e : Events) (exits : Option Bool) (ticks : List (Option Reply)) (s : HerdrServerStatus)
    → query_herdr_server e.stop_status ≡ some s
    → s.running ≡ true
    → (run_herdr e exits ticks).0 ≡ success
    → any is_stop (run_herdr e exits ticks).1 ≡ true
unfolding run_herdr ensure_herdr_server stop_herdr_server stop_herdr_session
run_herdr_stops e exits ticks s q r h = ground (arith, q, r, adopted_stops e ticks)
