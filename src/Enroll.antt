-- ===== src/Enroll.antt =====
-- internal/client/enroll.go: the node's keys, the bearer token, and the enrollment request. ssh-keygen,
-- the HTTP client and encoding/json are parameters.
pub mod Accepted
pub mod Keys
use Prim.Native.Nat.{bit_and}
use familiar_fleet.Base.{
  ℕ, Bool, true, false, not, ◌&&◌, ◌||◌, Option, none, some, List, [], ◌∷◌, ◌++◌, Text, codes,
  nat_eq, text_eq, ◌==◌, ◌!=◌, ltb, leb, length, if◌then◌else◌, ◌⊎◌, inl, inr,
}
use familiar_fleet.Text.{trim_space, trim_right, contains_any}
use familiar_fleet.FilePath.{clean}
use familiar_fleet.Host.{Entry, regular, raw}
use familiar_fleet.Endpoint.{Url, Urls, validate_endpoint}
use familiar_fleet.State.{
  Enrollment, EnrollmentRequest, EnrollmentError, validate_enrollment, validate_enrollment_request,
}
use familiar_fleet.State.Files.{Codec, Decoded, invalid, trailing, value, is_owner_only}

pub data EnrollError : Type 0 where
  bad_endpoint : EnrollError
  bad_request : EnrollmentError → EnrollError
  no_token : EnrollError
  nil_url : EnrollError
  request_failed : EnrollError
  enrollment_failed : ℕ → EnrollError
  unreadable_response : EnrollError
  response_too_large : EnrollError
  undecodable_response : EnrollError
  trailing_response : EnrollError
  bad_enrollment : EnrollmentError → EnrollError

-- `body` is what can be read of the response's body.
pub record Response : Type 0 where
  pub status : ℕ
  pub body : Option Text

-- What is sent: `POST url` with the bearer token and the request as JSON.
pub record Post : Type 0 where
  pub url : Text
  pub token : Text
  pub request : EnrollmentRequest

abbrev pub is_success : ℕ → Bool
is_success status = leb 200 status && ltb status 300

abbrev pub max_response : ℕ
max_response = 1048576

abbrev pub fleet_url : Text → Text
fleet_url endpoint = trim_right (λ c. c == b'/') endpoint ++ codes "/fleet"

module _ (urls : Urls) where
  abbrev pub post_to : Text → EnrollmentRequest → Option Url → EnrollError ⊎ Post
  post_to token request none = inl nil_url
  post_to token request (some u) =
      inr (record { url = urls.print u; token = token; request = request })

  abbrev pub post_checked :
      Text → Text → EnrollmentRequest → Option EnrollmentError → EnrollError ⊎ Post
  post_checked endpoint token request (some e) = inl (bad_request e)
  post_checked endpoint token request none =
      if token == [] then inl no_token else post_to token request (urls.parse (fleet_url endpoint))

  -- `Enroll` up to the request
  unfoldable pub enroll_post : (endpoint token : Text) → EnrollmentRequest → EnrollError ⊎ Post
  enroll_post endpoint token request =
      if not (validate_endpoint urls endpoint)
      then inl bad_endpoint
      else post_checked endpoint token request (validate_enrollment_request request)

module _ (codec : Codec Enrollment) (is_ip : Text → Bool) where
  abbrev pub accept_valid : Enrollment → Option EnrollmentError → EnrollError ⊎ Enrollment
  accept_valid e none = inr e
  accept_valid e (some x) = inl (bad_enrollment x)

  abbrev pub accept_decoded : Decoded Enrollment → EnrollError ⊎ Enrollment
  accept_decoded invalid = inl undecodable_response
  accept_decoded trailing = inl trailing_response
  accept_decoded (value e) = accept_valid e (validate_enrollment is_ip e)

  abbrev pub accept_body : Option Text → EnrollError ⊎ Enrollment
  accept_body none = inl unreadable_response
  accept_body (some body) =
      if ltb max_response (length body)
      then inl response_too_large
      else accept_decoded (codec.decode body)

  -- `Enroll` from the response on
  unfoldable pub accept_response : Option Response → EnrollError ⊎ Enrollment
  accept_response none = inl request_failed
  accept_response (some r) =
      if not (is_success r.status) then inl (enrollment_failed r.status) else accept_body r.body

  module _ (urls : Urls) (send : Post → Option Response) where
    abbrev pub send_post : EnrollError ⊎ Post → EnrollError ⊎ Enrollment
    send_post (inl e) = inl e
    send_post (inr post) = accept_response (send post)

    -- Enroll
    unfoldable pub enroll : (endpoint token : Text) → EnrollmentRequest → EnrollError ⊎ Enrollment
    enroll endpoint token request = send_post (enroll_post urls endpoint token request)

pub data TokenError : Type 0 where
  environment_newline : TokenError
  token_file_missing : TokenError
  token_file_not_private : TokenError
  token_file_unreadable : TokenError
  token_file_not_one_line : TokenError

abbrev has_line_end : Text → Bool
has_line_end t = contains_any t (13 ∷ 10 ∷ [])

abbrev token_of : Option Entry → TokenError ⊎ Text
token_of (some (regular _ (raw t))) =
    if trim_space t == [] || has_line_end (trim_space t)
    then inl token_file_not_one_line
    else inr (trim_space t)
token_of _ = inl token_file_unreadable

abbrev token_at : (Text → Option Entry) → Text → Option Entry → TokenError ⊎ Text
token_at find path none = inl token_file_missing
token_at find path (some info) =
    if not (is_owner_only info) then inl token_file_not_private else token_of (find (clean path))

-- ReadToken: `find` is what os.Lstat finds, and `environment` is FAMILIAR_FLEET_TOKEN
unfoldable pub read_token :
    (find : Text → Option Entry) (environment path : Text) → TokenError ⊎ Text
read_token find environment path =
    if path == []
    then (if has_line_end (trim_space environment)
        then inl environment_newline
        else inr (trim_space environment))
    else token_at find path (find path)
