-- ===== src/Enroll/Accepted.antt =====
-- Which enrollments are accepted.
use familiar_fleet.Base.{
  Option-cases, Bool, true, ◌≡◌, ◌≢◌, ◌↔◌, inl, inr, Option, none, some, [], Text, length, ◌≤◌, ℕ,
  refl, text_eq, eq_iff, arith,
}
use familiar_fleet.Endpoint.{Urls, Url, validate_endpoint}
use familiar_fleet.State.{
  Enrollment, EnrollmentRequest, validate_enrollment, validate_enrollment_request,
}
use familiar_fleet.State.Files.{Codec, Decoded, invalid, trailing, value}
use familiar_fleet.Enroll.{
  Response, Post, is_success, max_response, fleet_url, enroll, enroll_post, accept_response,
}

module _ (codec : Codec Enrollment) (is_ip : Text → Bool) (urls : Urls)
    (send : Post → Option Response) where
  module _ (endpoint token : Text) (request : EnrollmentRequest) where
    -- The request that is made, and the response to it, with what its body decodes to.
    pub record Exchange (e : Enrollment) : Type 0 where
      pub endpoint_valid : validate_endpoint urls endpoint ≡ true
      pub request_valid : validate_enrollment_request request ≡ none
      pub token_given : token ≢ []
      pub url : Url
      pub url_parsed : urls.parse (fleet_url endpoint) ≡ some url
      pub status : ℕ
      pub body : Text
      pub answered :
          send (record { url = urls.print url; token = token; request = request })
          ≡ some (record { status = status; body = some body })
      pub succeeded : is_success status ≡ true
      pub small : length body ≤ max_response
      pub decoded : codec.decode body ≡ value e
      pub valid : validate_enrollment is_ip e ≡ none

    exchanged :
        (e : Enrollment) → Exchange e → enroll codec is_ip urls send endpoint token request ≡ inr e
    unfolding enroll enroll_post accept_response
    exchanged e x = ground (
      arith,
      x.endpoint_valid,
      x.request_valid,
      x.token_given,
      eq_iff token [],
      x.url_parsed,
      x.answered,
      x.succeeded,
      x.small,
      x.decoded,
      x.valid,
    )

    answered_by :
        (e : Enrollment) (u : Url) (r : Response)
        → enroll codec is_ip urls send endpoint token request ≡ inr e
        → urls.parse (fleet_url endpoint) ≡ some u
        → send (record { url = urls.print u; token = token; request = request }) ≡ some r
        → Exchange e
    unfolding enroll enroll_post accept_response
    answered_by e u r h p a = elim (Option-cases r.body) [
      | inl n ↦ absurd (ground (arith, p, a, n))
      | inr (body, b) ↦ record {
        endpoint_valid = ground (arith, p);
        request_valid = ground (arith, p);
        token_given = ground (arith, p, eq_iff token []);
        url = u;
        url_parsed = p;
        status = r.status;
        body = body;
        answered = ground (arith, a, b);
        succeeded = ground (arith, p, a, b);
        small = ground (arith, p, a, b);
        decoded = by_decoded (codec.decode body) refl b;
        valid = by_decoded_valid (codec.decode body) refl b;
      }
    ]
      where
        by_decoded :
            {body : Text} (d : Decoded Enrollment)
            → codec.decode body ≡ d
            → r.body ≡ some body
            → codec.decode body ≡ value e
        by_decoded invalid f b = absurd (ground (arith, p, a, b, f))
        by_decoded trailing f b = absurd (ground (arith, p, a, b, f))
        by_decoded (value x) f b = ground (arith, p, a, b, f)

        by_decoded_valid :
            {body : Text} (d : Decoded Enrollment)
            → codec.decode body ≡ d
            → r.body ≡ some body
            → validate_enrollment is_ip e ≡ none
        by_decoded_valid invalid f b = absurd (ground (arith, p, a, b, f))
        by_decoded_valid trailing f b = absurd (ground (arith, p, a, b, f))
        by_decoded_valid (value x) f b = ground (arith, p, a, b, f)

    enroll_sound :
        (e : Enrollment) → enroll codec is_ip urls send endpoint token request ≡ inr e → Exchange e
    unfolding enroll enroll_post accept_response
    enroll_sound e h = elim (Option-cases (urls.parse (fleet_url endpoint))) [
      | inl n ↦ absurd (ground (arith, n))
      | inr (u, p) ↦
          elim (Option-cases
            (send (record { url = urls.print u; token = token; request = request }))) [
              | inl n ↦ absurd (ground (arith, p, n))
              | inr (r, a) ↦ answered_by e u r h p a
            ]
    ]

    -- `Enroll` returns an enrollment exactly when the endpoint and the request are valid, there is a
    -- token, and the response to the one request that it makes has a status from 200 to 299 and a body
    -- of at most 1 MiB that decodes to that enrollment, which is valid.
    pub enroll_iff :
        (e : Enrollment)
        → (enroll codec is_ip urls send endpoint token request ≡ inr e) ↔ Exchange e
    enroll_iff e = (enroll_sound e, exchanged e)
