-- ===== src/Examples/Connecting.antt =====
-- The theorems on the OAuth connection, at concrete inputs.
use familiar_fleet.Base.{
  All, ◌≤◌, true, ◌≡◌, inr, refl, Option, some, List, [], ◌∷◌, Text, codes, text_eq, nat_eq, length,
}
use familiar_fleet.Text.{has_prefix, fields, split, trim_space, trim_left, trim_right}
use familiar_fleet.Endpoint.{canonical_endpoint}
use familiar_fleet.Enroll.{Response}
use familiar_fleet.State.Grammar.{match_label, match_label_end, match_head, match_most}
use familiar_fleet.State.{validate_enrollment_request, validate_enrollment, valid_host}
use familiar_fleet.Descriptor
use familiar_fleet.Endpoint.{validate_endpoint}
use familiar_fleet.Text.{has_suffix}
use familiar_fleet.OAuth.{decode_raw_url, validate_id_token_nonce, exchange_code}
use familiar_fleet.State.PublicKey.{decode_base64, validate_public_key}
use familiar_fleet.Enroll.{enroll_post, accept_response}
use familiar_fleet.OAuth.{
  decode_raw_url, validate_id_token_nonce, exchange_code, new_oauth_parameters, redirect_uri_at,
  OidcDiscovery, authorization_timed_out, discover_oidc, fetch_json,
}
use familiar_fleet.OAuth.Start.{Outside, Opened, open_connect, build_authorize_url, open_browser}
use familiar_fleet.OAuth.Start.Bound.{Matches, IsBound, open_connect-IsBound}
use familiar_fleet.OAuth.Discovered.{IsDiscovered, discover_oidc-IsDiscovered}
use familiar_fleet.OAuth.Flow.{
  main_enrolled, take_enrolled, Callback, Form, Flow, Connection, Reach, start, returned,
  on_callback, take_callback, exchange, on_form, post_form, end_form, callback, main_callback,
  main_exchange, form, form_post, form_end, here, next,
}
use familiar_fleet.OAuth.Flow.Invariant.{Sent, Returned, Reach-Sent, Reach-Returned}
use familiar_fleet.OAuth.Flow.Ending.{time_over, HasReturned, connect-HasReturned}
use familiar_fleet.OAuth.Flow.Stages.{Advances, Step-Advances}
use familiar_fleet.Examples.Clients.{enrollment, no_ip}
use familiar_fleet.Examples.Flows.{urls, fleet, enrollment_codec, request, answer}

abbrev pub document : OidcDiscovery
document = record {
  issuer = fleet;
  authorization_endpoint = codes "auth.example.org";
  token_endpoint = codes "token.example.org";
  code_challenge_methods = codes "S256" ∷ [];
}

abbrev pub get : Text → Option Response
get url = some (record { status = 200; body = some [] })

abbrev pub resource : Text → Option (List Text)
resource body = some (fleet ∷ [])

abbrev pub discovery : Text → Option OidcDiscovery
discovery body = some document

discovers : discover_oidc urls get resource discovery fleet ≡ inr document
unfolding discover_oidc fetch_json canonical_endpoint trim_space trim_left trim_right
discovers = refl

discover_oidc-IsDiscovered_example : IsDiscovered urls get resource discovery fleet document
discover_oidc-IsDiscovered_example =
    discover_oidc-IsDiscovered urls get resource discovery fleet document discovers

abbrev pub connection : Connection
connection = record {
  urls = urls;
  codec = enrollment_codec;
  is_ip = no_ip;
  decode_token = λ t. some (record { access_token = codes "access"; id_token = codes "a.e30.c" });
  nonce_claim = λ t. some (codes "nonce");
  endpoint = fleet;
  request = request;
  state = codes "state";
  nonce = codes "nonce";
  token_endpoint = codes "token.example.org";
  verifier = codes "verifier";
  redirect_uri = redirect_uri_at 17421;
}

-- The browser comes back with a code.
abbrev pub back : Callback
back = record { is_get = true; state = codes "state"; error = []; code = codes "code" }

abbrev pub naming : Form
naming = record { is_post = true; parses = true; state = codes "state"; name = codes "worker" }

abbrev pub called_back : Flow
called_back = take_callback connection (on_callback connection back start)

abbrev pub submitted : Flow
submitted =
    post_form connection (on_form connection naming (exchange connection (some answer) called_back))

reaches : Reach connection submitted
reaches =
    next
      (next (next (next (next here (callback back)) main_callback) (main_exchange (some answer)))
        (form naming))
      form_post

Reach-Sent_example : (length submitted.exchanges ≤ 1) × Sent submitted.posts submitted.accepted
Reach-Sent_example = Reach-Sent connection submitted reaches

-- One request was sent, with the token that was accepted.
sent_once : length submitted.posts ≡ 1
unfolding start on_callback take_callback exchange exchange_code validate_id_token_nonce
    decode_raw_url decode_base64 split on_form match_label match_label_end trim_space trim_left
    trim_right post_form enroll_post canonical_endpoint validate_enrollment_request
    validate_public_key match_head match_most validate_enrollment valid_host fields
    validate_endpoint
sent_once = refl

-- The fleet answers, and the enrollment is stored.
abbrev pub answered : Flow
answered = end_form connection (some answer) true submitted

Step-Advances_example : Advances submitted answered
Step-Advances_example =
    Step-Advances connection submitted answered reaches (form_end (some answer) true)

abbrev pub connected : Flow
connected = take_enrolled connection answered

has_returned : connected.phase ≡ returned (inr enrollment)
unfolding start on_callback take_callback exchange exchange_code validate_id_token_nonce
    decode_raw_url decode_base64 split on_form match_label match_label_end trim_space trim_left
    trim_right post_form enroll_post canonical_endpoint end_form take_enrolled
    validate_enrollment_request validate_public_key match_head match_most validate_enrollment
    valid_host fields has_prefix accept_response Descriptor.validate Descriptor.match_installable
    Descriptor.match_commit Descriptor.strip_prefix Descriptor.installable_head
    Descriptor.installable_tail validate_endpoint has_suffix
has_returned = refl

Reach-Returned_example : Returned (inr enrollment) connected
Reach-Returned_example =
    Reach-Returned connection connected (inr enrollment)
      (next (next reaches (form_end (some answer) true)) main_enrolled) has_returned

-- The time is over while the code is exchanged.
connect-HasReturned_example :
    Reach connection (time_over connection authorization_timed_out called_back)
    × HasReturned connection authorization_timed_out called_back.phase
        (time_over connection authorization_timed_out called_back).phase
connect-HasReturned_example =
    connect-HasReturned connection authorization_timed_out called_back
      (next (next here (callback back)) main_callback)

-- A Linux machine with a browser.
abbrev pub outside : Outside
outside = record {
  urls = urls;
  decode_query = λ q. (codes "state", codes "old") ∷ [];
  encode_query = λ q. [];
  get = get;
  decode_resource = resource;
  decode_discovery = discovery;
  random = λ i n. some (b'r' ∷ i ∷ []);
  digest = λ t. b'd' ∷ t;
  listener = some 17421;
  goos = codes "linux";
  look_path = λ command. some command;
  starts = true;
  codec = enrollment_codec;
  is_ip = no_ip;
  decode_token = connection.decode_token;
  nonce_claim = connection.nonce_claim;
}

abbrev pub opened : Opened
opened = record {
  connection = record connection {
    state = b'r' ∷ 0 ∷ [];
    nonce = b'r' ∷ 1 ∷ [];
    verifier = b'r' ∷ 2 ∷ [];
  };
  discovery = document;
  command = codes "xdg-open";
  url = codes "auth.example.org";
}

opens : open_connect outside request (codes "Fleet.example.org ") ≡ inr opened
unfolding open_connect build_authorize_url open_browser new_oauth_parameters discover_oidc
    fetch_json canonical_endpoint trim_space trim_left trim_right
opens = refl

abbrev pub posted : Flow
posted = exchange opened.connection (some answer) (
    take_callback opened.connection
      (on_callback opened.connection (record back { state = b'r' ∷ 0 ∷ [] }) start))

posted_once : length posted.exchanges ≡ 1
unfolding start on_callback take_callback exchange exchange_code validate_id_token_nonce
    decode_raw_url decode_base64 split
posted_once = refl

open_connect-IsBound_example :
    (b : IsBound outside request (codes "Fleet.example.org ") opened) × All
      (Matches outside request (codes "Fleet.example.org ") opened b.query)
      posted.exchanges
open_connect-IsBound_example =
    open_connect-IsBound outside request (codes "Fleet.example.org ") opened opens posted (
      next (next (next here (callback (record back { state = b'r' ∷ 0 ∷ [] }))) main_callback)
        (main_exchange (some answer)))
