-- ===== src/Session/Stopping.antt =====
-- What `StopHerdrSession` reports.
use familiar_fleet.Base.{Bool, false, ◌||◌, List, [], ◌∷◌}
use familiar_fleet.Session.{
  Reply, Wake, tick, deadline, cancelled, query_herdr_server, seen_stopped,
}

-- A poll saw that the server is not running, before the deadline or the context's end.
abbrev pub saw_stopped : List (Reply × Wake) → Bool
saw_stopped [] = false
saw_stopped ((r, tick) ∷ polls) = seen_stopped (query_herdr_server r) || saw_stopped polls
saw_stopped ((r, deadline) ∷ polls) = seen_stopped (query_herdr_server r)
saw_stopped ((r, cancelled) ∷ polls) = seen_stopped (query_herdr_server r)
