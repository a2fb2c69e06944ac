-- ===== src/Examples/Supervision.antt =====
-- The theorems on the supervised processes, at concrete runs.
use familiar_fleet.Base.{
  ◌≢◌, all, ◌-◌, ◌≡◌, ◌⊎◌, ◌≤◌, ℕ, refl, true, false, none, some, List, [], ◌∷◌, codes,
}
use familiar_fleet.State.{paths_in}
use familiar_fleet.Config.{tunnel_args_for_port}
use familiar_fleet.Session.Sshd.{
  Act, Attempt, tick, listening, write_config, start_sshd, start_sshd_all, start_sshd_from,
  try_sshd, await_sshd,
}
use familiar_fleet.Session.Sshd.Configured.{configured_port}
use familiar_fleet.Session.Supervisor.{
  unstarted, is_over, die, is_alive, absent, Setup, Supervisor, begin, returned,
}
use familiar_fleet.Session.Supervisor.MainMoves.{
  listen, open_tui, take_end, reap_child, signal_child, cancel, join, clean_up,
}
use familiar_fleet.Session.Supervisor.TunnelMoves.{start_ssh, stop_ssh, reap_ssh}
use familiar_fleet.Session.Supervisor.Steps.{
  Reach, here, next, sshd_listens, tui_opens, tunnel_starts, context_ends, main_takes_end,
  main_signals, tui_exits, main_reaps, main_cancels, sshd_exits, tunnel_stops, ssh_exits,
  tunnel_reaps, main_joins, main_cleans,
}
use familiar_fleet.Session.Supervisor.Invariant.{AllAre}
use familiar_fleet.Session.Supervisor.Stopped.{Reach-IsStopped, Reach-IsSparing, Reach-IsForwarding}
use familiar_fleet.Session.Supervisor.Reconnecting.{Reconnects, Reach-Reconnects}
use familiar_fleet.Session.Child.{
  Child, Process, Table, started, forked, foreground, is_signalled, child_process,
  start_foreground_child, start_child_with_attrs, herdr_tui_args,
}
use familiar_fleet.Session.Child.Reached.{is_spared, is_signalled-all}
use familiar_fleet.Session.Supervisor.Ending.{Ends, Reach-Ends}
use familiar_fleet.Examples.Clients.{enrollment}

-- `RunInteractive`, which has spawned the server.
abbrev pub spawning : Setup
spawning = record {
  has_tui = true;
  spawned = true;
  paths = paths_in (codes "/s");
  enrollment = enrollment;
}

abbrev pub answered : List Attempt
answered = record { port = some 2222; writes = true; starts = true; wakes = tick true ∷ [] } ∷ []

abbrev pub acts : List Act
acts = write_config 2222 ∷ start_sshd ∷ []

answers : start_sshd_all answered ≡ (listening 2222, acts)
unfolding start_sshd_all start_sshd_from try_sshd await_sshd
answers = refl

listened : Reach spawning (listen spawning 2222 acts begin)
listened = next here (sshd_listens answered 2222 acts answers)

-- The TUI and ssh run.
abbrev pub busy : Supervisor
busy = start_ssh spawning true (open_tui spawning true (listen spawning 2222 acts begin))

busy-Reach : Reach spawning busy
busy-Reach = next (next listened (tui_opens true)) (tunnel_starts true)

-- The context ends.
abbrev pub interrupted : Supervisor
interrupted = record busy { ended = true }

interrupted-Reach : Reach spawning interrupted
interrupted-Reach = next busy-Reach context_ends

Reach-Ends_example : Ends spawning interrupted
unfolding listen open_tui start_ssh begin
Reach-Ends_example = Reach-Ends spawning interrupted interrupted-Reach refl

Reach-IsForwarding_example :
    (busy.ssh_alive ≤ 1)
    × ((busy.forwards ≡ [])
        ⊎ ((p : ℕ) × (configured_port busy.acts ≡ some p)
            × AllAre (tunnel_args_for_port spawning.paths spawning.enrollment p) busy.forwards))
Reach-IsForwarding_example = Reach-IsForwarding spawning busy busy-Reach

-- The user's TUI is told to stop and exits; then sshd, and ssh.
abbrev pub left : Supervisor
left =
    let asked : Supervisor = signal_child spawning (take_end spawning interrupted) in
    cancel spawning (reap_child spawning (record asked { tui = die asked.tui }))

left-Reach : Reach spawning left
left-Reach =
    next
      (next (next (next (next interrupted-Reach main_takes_end) main_signals) tui_exits) main_reaps)
      main_cancels

abbrev pub without_sshd : Supervisor
without_sshd =
    let asked : Supervisor = signal_child spawning left in
    reap_child spawning (record asked { sshd = die asked.sshd })

without_sshd-Reach : Reach spawning without_sshd
without_sshd-Reach = next (next (next left-Reach main_signals) sshd_exits) main_reaps

abbrev pub done : Supervisor
done =
    let asked : Supervisor = stop_ssh spawning without_sshd in
    join spawning (reap_ssh spawning (record asked { ssh_alive = asked.ssh_alive - 1 }))

done-Reach : Reach spawning done
done-Reach =
    next (next (next (next without_sshd-Reach tunnel_stops) ssh_exits) tunnel_reaps) main_joins

done-returned : done.main ≡ returned none
unfolding begin listen open_tui start_ssh take_end signal_child reap_child cancel stop_ssh reap_ssh
    join
done-returned = refl

Reach-IsStopped_example :
    (is_alive done.tui.life ≡ false) × (is_alive done.sshd.life ≡ false) × (done.ssh_alive ≡ 0)
Reach-IsStopped_example = Reach-IsStopped spawning done done-Reach none done-returned

-- The TUI does not start, and the spawned server is stopped.
abbrev pub closed : Supervisor
closed =
    let asked : Supervisor =
      cancel spawning (open_tui spawning false (listen spawning 2222 acts begin)) in
    reap_child spawning (record asked { sshd = die asked.sshd })

closed-Reach : Reach spawning closed
closed-Reach =
    next (next (next (next listened (tui_opens false)) main_cancels) sshd_exits) main_reaps

abbrev pub cleaned : Supervisor
cleaned = clean_up spawning (join spawning (start_ssh spawning true closed))

cleaned-Reach : Reach spawning cleaned
cleaned-Reach = next (next (next closed-Reach (tunnel_starts true)) main_joins) main_cleans

cleaned-signalled : cleaned.server.signalled ≡ true
unfolding begin listen open_tui start_ssh reap_child cancel join clean_up
cleaned-signalled = refl

Reach-IsSparing_example : (spawning.spawned ≡ true) × (cleaned.tui.life ≡ absent)
Reach-IsSparing_example = Reach-IsSparing spawning cleaned cleaned-Reach cleaned-signalled

-- ssh has exited.
abbrev pub cut_off : Supervisor
cut_off = record busy { ssh_alive = busy.ssh_alive - 1 }

cut_off-lasts : is_over cut_off ≡ false
unfolding begin listen open_tui start_ssh
cut_off-lasts = refl

cut_off-started : cut_off.tunnel ≢ unstarted
unfolding begin listen open_tui start_ssh
cut_off-started h = absurd (cc)

Reach-Reconnects_example : Reconnects spawning cut_off
Reach-Reconnects_example =
    Reach-Reconnects spawning cut_off (next busy-Reach ssh_exits) cut_off-lasts cut_off-started

-- The TUI of a program in the group 100, which forks a shell in a group of its own.
abbrev pub tui : Child
tui = start_foreground_child (codes "/bin/herdr") herdr_tui_args 200

abbrev pub program_process : Process
program_process = record { pid = 100; group = 100; descends = false; joins = false }

abbrev pub tui_process : Process
tui_process = child_process tui 100

abbrev pub shell_process : Process
shell_process = record { pid = 300; group = 100; descends = true; joins = false }

forks : Table tui (shell_process ∷ tui_process ∷ program_process ∷ [])
unfolding start_foreground_child start_child_with_attrs
forks =
    forked [] (program_process ∷ []) tui_process 300
      (started (program_process ∷ []) 100 refl refl refl) refl refl

is_signalled-all_example :
    ((group : ℕ) → is_signalled tui (child_process tui group) ≡ true)
    × (all (is_spared tui) (shell_process ∷ tui_process ∷ program_process ∷ []) ≡ true)
is_signalled-all_example =
    is_signalled-all (foreground (codes "/bin/herdr") herdr_tui_args 200) forks
