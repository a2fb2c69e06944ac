-- ===== src/Examples/Flows.antt =====
-- The theorems on endpoints, the state file and enrolling, at concrete inputs.
use familiar_fleet.Base.{
  Bool, true, false, ◌≡◌, ◌≢◌, ◌↔◌, inl, inr, refl, Option, none, some, List, [], ◌∷◌, ◌++◌, Text,
  codes, text_eq, nat_eq, ◌==◌, arith, pos,
}
use familiar_fleet.Text.{to_lower, trim_space, trim_left, trim_right}
use familiar_fleet.Host.{
  ◌>>=◌, perform, finally, attempt, remove_temp, rename_temp, no_op, fill_temp, make_temp, lookup,
  resume, FilePath, Entry, regular, raw, ok, put, World,
}
use familiar_fleet.Endpoint.{Url, Urls, lower, trim_slashes, canonical_endpoint, validate_endpoint}
use familiar_fleet.Endpoint.Secure.{last_is, IsSecure, canonical_endpoint-IsSecure}
use familiar_fleet.State.{EnrollmentRequest, Enrollment}
use familiar_fleet.State.Files.{
  atomic_write, Codec, Saved, value, current_version, save_state, load_state,
}
use familiar_fleet.State.Files.RoundTrip.{IsValid, load_state-save_state}
use familiar_fleet.State.Grammar.{match_head, match_most}
use familiar_fleet.Enroll.{Post, Response, enroll}
use familiar_fleet.Enroll.Accepted.{Exchange, enroll_iff}
use familiar_fleet.Enroll.Keys.{ensure_key, ensure_key_keeps}
use familiar_fleet.Examples.Machine.{world}
use familiar_fleet.Examples.Clients.{enrollment, no_ip, is_valid, key}

-- A URL that is its host.
abbrev pub site_of : Text → Option Url
site_of t = some (record {
  scheme = codes "https";
  opaque = [];
  has_user = false;
  host = t;
  path = [];
  raw_path = [];
  force_query = false;
  raw_query = [];
  fragment = [];
})

abbrev pub urls : Urls
urls = record {
  parse = site_of;
  print = λ u. u.host;
  hostname = λ u. u.host;
  is_loopback = λ h. false;
  to_lower = to_lower;
}

abbrev pub fleet : Text
fleet = codes "fleet.example.org"

is_canonical : canonical_endpoint urls (codes "Fleet.example.org ") ≡ some fleet
unfolding canonical_endpoint trim_space trim_left trim_right
is_canonical = refl

abbrev pub site : Url
site = record {
  scheme = codes "https";
  opaque = [];
  has_user = false;
  host = fleet;
  path = [];
  raw_path = [];
  force_query = false;
  raw_query = [];
  fragment = [];
}

canonical_endpoint-IsSecure_example :
    (u : Url) × (urls.parse (trim_space (codes "Fleet.example.org ")) ≡ some u)
    × IsSecure urls u
    × (fleet ≡ urls.print (trim_slashes (lower urls u)))
    × ((trim_slashes (lower urls u)).force_query ≡ u.force_query)
    × (last_is (λ c. c == b'/') (trim_slashes (lower urls u)).path ≡ false)
canonical_endpoint-IsSecure_example =
    canonical_endpoint-IsSecure urls (codes "Fleet.example.org ") fleet is_canonical

abbrev pub saved : Saved
saved = record {
  version = pos 0;
  endpoint = fleet;
  ssh_user = codes "ada";
  enrollment = enrollment;
}

abbrev pub codec : Codec Saved
codec = record { encode = λ s. codes "{}"; decode = λ t. value (record saved { version = pos 1 }) }

abbrev pub state_path : FilePath
state_path = codes "state.json" ∷ []

saved-IsValid : IsValid codec urls no_ip state_path saved
unfolding validate_endpoint canonical_endpoint trim_space trim_left trim_right match_head match_most
saved-IsValid = record {
  endpoint = refl;
  ssh_user = refl;
  enrollment = is_valid;
  decoded = refl;
  small = omega arith;
}

saves : (save_state codec urls no_ip state_path saved world).0 ≡ ok tt
unfolding save_state atomic_write make_temp fill_temp no_op rename_temp remove_temp attempt finally
    perform put lookup ◌>>=◌
saves = refl

load_state-save_state_example :
    (load_state codec urls no_ip state_path
      (resume (save_state codec urls no_ip state_path saved world).1 [])).0
    ≡ ok (some (current_version codec urls no_ip saved))
load_state-save_state_example =
    load_state-save_state codec urls no_ip state_path saved world saved-IsValid saves

abbrev pub enrollment_codec : Codec Enrollment
enrollment_codec = record { encode = λ e. codes "{}"; decode = λ t. value enrollment }

abbrev pub request : EnrollmentRequest
request = record {
  host = codes "worker";
  tunnel_public_key = key;
  ssh_host_public_key = key;
  ssh_user = codes "ada";
}

abbrev pub answer : Response
answer = record { status = 201; body = some (codes "{}") }

abbrev pub send : Post → Option Response
send p = some answer

enroll_iff_example :
    (enroll enrollment_codec no_ip urls send fleet (codes "token") request ≡ inr enrollment)
    ↔ Exchange enrollment_codec no_ip urls send fleet (codes "token") request enrollment
enroll_iff_example =
    enroll_iff enrollment_codec no_ip urls send fleet (codes "token") request enrollment

abbrev pub keygen : FilePath → FilePath → Bool × List (FilePath × Entry)
keygen private public =
    (true, (private, regular 0o600 (raw [])) ∷ (public, regular 0o644 (raw key)) ∷ [])

abbrev pub keyed : World
keyed = record world { entries = (codes "tunnel" ∷ [], regular 0o600 (raw [])) ∷ [] }

key_is_there : lookup ([] ++ codes "tunnel" ∷ []) keyed.entries ≢ none
unfolding lookup
key_is_there h = absurd (cc)

ensure_key_keeps_example : (ensure_key keygen [] (codes "tunnel") keyed).1.entries ≡ keyed.entries
ensure_key_keeps_example = ensure_key_keeps keygen [] (codes "tunnel") keyed (inl key_is_there)
