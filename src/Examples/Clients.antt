-- ===== src/Examples/Clients.antt =====
-- The theorems on sessions, the tunnel, enrollments, quoting and the pane shell, at concrete inputs.
use familiar_fleet.Tiamat.{Stat, found, FileInfo}
use familiar_fleet.Host.{Info}
use familiar_fleet.Examples.Machine.{program}
use familiar_fleet.Base.{
  Option, text_eq, ◌*◌, ℕ, ◌≡◌, refl, Bool, true, false, none, some, List, [], ◌∷◌, Text, codes,
  any, All, arith, pos,
}
use familiar_fleet.Text.{fields, split, has_prefix, has_suffix}
use familiar_fleet.Descriptor
use familiar_fleet.Descriptor.{RuntimeDescriptor}
use familiar_fleet.Session.{
  Events, Reply, Wake, tick, decoded, exit_failure, HerdrServerStatus, tui_done, success, run_herdr,
  ensure_herdr_server, query_herdr_server, supervise_adopted_herdr,
}
use familiar_fleet.Session.Ownership.{is_stop, run_herdr_stops}
use familiar_fleet.Tunnel.{Round, no_start, ran_for, second, tunnel_loop}
use familiar_fleet.Tunnel.Delays.{InBounds, IsInt63n, tunnel_loop_bounds}
use familiar_fleet.State.{Enrollment, validate_enrollment, valid_host}
use familiar_fleet.State.Grammar.{match_label, match_label_end, match_head, match_most}
use familiar_fleet.State.PublicKey.{validate_public_key, decode_base64}
use familiar_fleet.State.Safe.{IsSafe, validate_enrollment-IsSafe}
use familiar_fleet.Config.{shell_quote}
use familiar_fleet.Config.Quoting.{shell_word, bare, shell_word-shell_quote}

abbrev pub running : HerdrServerStatus
running = record { running = true; version = codes "1.2"; compatible = some true }

-- A server runs; the user leaves the TUI.
abbrev pub reuse : Events
reuse = record {
  status = decoded running;
  server_starts = true;
  server_ready = true;
  infrastructure_starts = true;
  tui_starts = true;
  ended = tui_done true ∷ [];
  stop_status = decoded running;
  stop_fine = true;
  stop_polls = (exit_failure, tick) ∷ [];
}

asked : query_herdr_server reuse.status ≡ some running
unfolding query_herdr_server
asked = refl

serviced : (run_herdr reuse none (some (decoded running) ∷ none ∷ [])).0 ≡ success
unfolding run_herdr ensure_herdr_server query_herdr_server supervise_adopted_herdr
serviced = refl

run_herdr_stops_example :
    any is_stop (run_herdr reuse none (some (decoded running) ∷ none ∷ [])).1 ≡ true
run_herdr_stops_example =
    run_herdr_stops reuse none (some (decoded running) ∷ none ∷ []) running asked refl serviced

abbrev pub polls : List (Reply × Wake)
polls = (decoded running, tick) ∷ (exit_failure, tick) ∷ []

abbrev pub lowest : ℕ → ℕ
lowest n = 0

lowest-IsInt63n : IsInt63n lowest
lowest-IsInt63n n = omega arith

abbrev pub rounds : List (Round × (ℕ → ℕ))
rounds = (no_start, lowest) ∷ (ran_for (5 * second), lowest) ∷ []

tunnel_loop_bounds_example : All InBounds (tunnel_loop 0 rounds)
tunnel_loop_bounds_example = tunnel_loop_bounds 0 rounds (lowest-IsInt63n, (lowest-IsInt63n, tt))

shell_word-shell_quote_example : shell_word bare (shell_quote (codes "it's")) ≡ some (codes "it's")
shell_word-shell_quote_example = shell_word-shell_quote (codes "it's")

abbrev pub key : Text
key = codes "ssh-ed25519 AAAAC3NzaC1lZDI1NTE5AAAAIAABAgMEBQYHCAkKCwwNDg8QERITFBUWFxgZGhscHR4f"

abbrev pub enrollment : Enrollment
enrollment = record {
  node_id = codes "node-1";
  host = codes "worker";
  port = pos 20001;
  tunnel_host = codes "fleet.example.org";
  tunnel_ssh_port = pos 22;
  tunnel_user = codes "tunnel";
  remote_session = codes "familiar-fleet";
  controller_public_key = key;
  runtime = record {
    schema = pos 1;
    installable =
        codes
          "github:gisikw/familiar/0123456789abcdef0123456789abcdef01234567#familiar-worker-runtime";
  };
  tunnel_host_key = [];
}

abbrev pub no_ip : Text → Bool
no_ip s = false

pub is_valid : validate_enrollment no_ip enrollment ≡ none
unfolding validate_enrollment valid_host match_label match_label_end match_head match_most
    validate_public_key decode_base64 fields split has_prefix has_suffix Descriptor.validate
    Descriptor.match_installable Descriptor.match_commit Descriptor.strip_prefix
    Descriptor.installable_head Descriptor.installable_tail
is_valid = refl

validate_enrollment-IsSafe_example : IsSafe no_ip enrollment
validate_enrollment-IsSafe_example = validate_enrollment-IsSafe no_ip enrollment is_valid

abbrev pub token : FileInfo
token = record { is_regular = true; size = 6; opened = some (codes "secret") }

abbrev pub secrets : Text → Stat
secrets path = found token

abbrev pub bash_file : Text → Option Info
bash_file path = some program
