-- ===== src/OAuth/Flow.antt =====
-- `Connect` of internal/client/oauth.go from the opened browser on: the main goroutine and the two
-- handlers as one step relation over what they share. A step is what one of them does between two
-- points at which another may run. Once the function has returned its handlers may still run.
pub mod Ending
pub mod Invariant
pub mod Requests
pub mod Stages
use familiar_fleet.Base.{
  ℕ, Bool, true, false, not, ◌&&◌, ◌||◌, ◌≡◌, Option, none, some, List, [], ◌∷◌, ◌++◌, Text,
  text_eq, ◌==◌, ◌!=◌, if◌then◌else◌, ◌⊎◌, inl, inr,
}
use familiar_fleet.Text.{trim_space}
use familiar_fleet.Endpoint.{Urls}
use familiar_fleet.Enroll.{EnrollError, Response, Post, enroll_post, accept_response}
use familiar_fleet.OAuth.{
  OauthError, TokenResponse, exchange_form, exchange_code, validate_id_token_nonce, state_mismatch,
  authorization_denied, omitted_code, authorization_timed_out, form_timed_out, enrollment_error,
  finalize_error,
}
use familiar_fleet.State.{Enrollment, EnrollmentRequest}
use familiar_fleet.State.Files.{Codec}
use familiar_fleet.State.Grammar.{match_label}

-- A request to `/callback`: whether it is a GET, and its query.
pub record Callback : Type 0 where
  pub is_get : Bool
  pub state : Text
  pub error : Text
  pub code : Text

-- A request to `/enroll`: whether it is a POST, whether its form parses, and the form.
pub record Form : Type 0 where
  pub is_post : Bool
  pub parses : Bool
  pub state : Text
  pub name : Text

pub data Page : Type 0 where
  form_page success_page method_not_allowed conflict bad_request forbidden bad_gateway timed_out :
      Page

-- Where the main goroutine is; `draining` is its wait for `callbackPageSent`, which nothing else ends.
pub data Phase : Type 0 where
  awaiting_callback : Phase
  exchanging : Text → Phase
  draining : OauthError → Phase
  awaiting_form : Phase
  returned : OauthError ⊎ Enrollment → Phase

-- Where the handler is that has claimed the callback: before it writes the page of an error, in its
-- `select`, or behind its send on `callbackPageSent`.
pub data Handler : Type 0 where
  unused refusing waiting finished : Handler

-- A request to the token endpoint: where it is posted, and the form.
pub record TokenRequest : Type 0 where
  pub endpoint : Text
  pub form : List (Text × Text)

-- Where the handler is that has claimed the form.
pub data Claim : Type 0 where
  unclaimed : Claim
  named : Text → Claim
  posted : EnrollError ⊎ Post → Claim
  settled : Claim

-- What the goroutines share. The last five fields are history: the requests to the token endpoint, the
-- access tokens that were accepted, the enrollment requests that were sent, the enrollments that
-- `finalize` has stored, and the pages that were sent.
pub record Flow : Type 0 where
  pub phase : Phase
  pub callback_used : Bool
  pub callback : Option (OauthError ⊎ Text)
  pub handler : Handler
  pub page_sent : Bool
  pub auth_ready : Option (Option OauthError)
  pub auth_complete : Bool
  pub access_token : Text
  pub form_used : Bool
  pub claim : Claim
  pub enrolled : Option (OauthError ⊎ Enrollment)
  pub exchanges : List TokenRequest
  pub accepted : List Text
  pub posts : List Post
  pub stored : List Enrollment
  pub pages : List Page

unfoldable pub start : Flow
start = record {
  phase = awaiting_callback;
  callback_used = false;
  callback = none;
  handler = unused;
  page_sent = false;
  auth_ready = none;
  auth_complete = false;
  access_token = [];
  form_used = false;
  claim = unclaimed;
  enrolled = none;
  exchanges = [];
  accepted = [];
  posts = [];
  stored = [];
  pages = [];
}

abbrev pub page : Page → Flow → Flow
page p f = record f { pages = p ∷ f.pages }

-- What does not change while `Connect` runs.
pub record Connection : Type 0 where
  pub urls : Urls
  pub codec : Codec Enrollment
  pub is_ip : Text → Bool
  pub decode_token : Text → Option TokenResponse
  pub nonce_claim : Text → Option Text
  pub endpoint : Text
  pub request : EnrollmentRequest
  pub state : Text
  pub nonce : Text
  pub token_endpoint : Text
  pub verifier : Text
  pub redirect_uri : Text

module _ (c : Connection) where
  abbrev pub callback_result : Callback → OauthError ⊎ Text
  callback_result q =
      if q.state != c.state
      then inl state_mismatch
      else if q.error != []
      then inl (authorization_denied q.error)
      else if q.code == []
      then inl omitted_code
      else inr q.code

  abbrev pub claim_callback : OauthError ⊎ Text → Flow → Flow
  claim_callback (inl e) f = record f {
    callback_used = true;
    callback = some (inl e);
    handler = refusing;
  }
  claim_callback (inr code) f = record f {
    callback_used = true;
    callback = some (inr code);
    handler = waiting;
  }

  -- the handler of `/callback`, up to its send on `callbackCh`
  unfoldable pub on_callback : Callback → Flow → Flow
  on_callback q f =
      if not q.is_get
      then page method_not_allowed f
      else if f.callback_used
      then page conflict f
      else claim_callback (callback_result q) f

  abbrev pub ready_page : Option OauthError → Page
  ready_page none = form_page
  ready_page (some e) = bad_gateway

  abbrev pub take_ready : Option (Option OauthError) → Flow → Flow
  take_ready none f = page timed_out f
  take_ready (some r) f = page (ready_page r) (record f { auth_ready = none })

  -- the page, and the deferred send on `callbackPageSent`
  abbrev pub answer_at : Handler → (times_out : Bool) → Flow → Flow
  answer_at refusing times_out f =
      page bad_request (record f { handler = finished; page_sent = true })
  answer_at waiting times_out f =
      take_ready (if times_out then none else f.auth_ready)
        (record f { handler = finished; page_sent = true })
  answer_at _ times_out f = f

  -- the end of that handler: its page; in its `select` the end of the flow's time or what is ready
  unfoldable pub answer_callback : (times_out : Bool) → Flow → Flow
  answer_callback times_out f = answer_at f.handler times_out f

  -- the handler of `/enroll`, up to its claim of the form
  unfoldable pub on_form : Form → Flow → Flow
  on_form r f =
      if not r.is_post
      then page method_not_allowed f
      else if not r.parses
      then page bad_request f
      else if not f.auth_complete || r.state != c.state
      then page forbidden f
      else if not (match_label (trim_space r.name))
      then page bad_request f
      else if f.form_used
      then page conflict f
      else record f { form_used = true; claim = named (trim_space r.name) }

  abbrev pub send : EnrollError ⊎ Post → Flow → Flow
  send (inl e) f = record f { claim = posted (inl e) }
  send (inr p) f = record f { claim = posted (inr p); posts = p ∷ f.posts }

  abbrev pub post_claimed : Claim → Flow → Flow
  post_claimed (named name) f =
      send (enroll_post c.urls c.endpoint f.access_token (record c.request { host = name })) f
  post_claimed _ f = f

  -- `Enroll` of the claimed form, up to its request
  unfoldable pub post_form : Flow → Flow
  post_form f = post_claimed f.claim f

  -- what follows `finalize`, and the two sends on channels
  abbrev pub finish : OauthError ⊎ Enrollment → Flow → Flow
  finish (inl e) f =
      page bad_gateway (record f { claim = settled; access_token = []; enrolled = some (inl e) })
  finish (inr e) f = page success_page (record f {
    claim = settled;
    access_token = [];
    enrolled = some (inr e);
    stored = e ∷ f.stored;
  })

  -- `finalizes`: finalize returns no error
  abbrev pub finalize : (finalizes : Bool) → EnrollError ⊎ Enrollment → OauthError ⊎ Enrollment
  finalize finalizes (inl x) = inl enrollment_error
  finalize finalizes (inr e) = if finalizes then inr e else inl finalize_error

  abbrev pub response_to : EnrollError ⊎ Post → Option Response → EnrollError ⊎ Enrollment
  response_to (inl e) r = inl e
  response_to (inr p) r = accept_response c.codec c.is_ip r

  abbrev pub end_claimed : Claim → Option Response → Bool → Flow → Flow
  end_claimed (posted p) r finalizes f = finish (finalize finalizes (response_to p r)) f
  end_claimed _ r finalizes f = f

  -- the rest of the handler of `/enroll`, from the response on
  unfoldable pub end_form : Option Response → (finalizes : Bool) → Flow → Flow
  end_form r finalizes f = end_claimed f.claim r finalizes f

  abbrev pub receive : Option (OauthError ⊎ Text) → Flow → Flow
  receive none f = f
  receive (some (inl e)) f = record f { callback = none; phase = draining e }
  receive (some (inr code)) f = record f { callback = none; phase = exchanging code }

  -- the first `select` of `Connect`, when the callback's result is there
  abbrev pub take_callback_at : Phase → Flow → Flow
  take_callback_at awaiting_callback f = receive f.callback f
  take_callback_at _ f = f

  unfoldable pub take_callback : Flow → Flow
  take_callback f = take_callback_at f.phase f

  -- ValidateIDTokenNonce behind ExchangeCode
  abbrev pub verify : OauthError ⊎ TokenResponse → OauthError ⊎ Text
  verify (inl e) = inl e
  verify (inr t) = elim (validate_id_token_nonce c.nonce_claim t.id_token c.nonce) [
    | none ↦ inr t.access_token
    | some e ↦ inl e
  ]

  -- the request of ExchangeCode, as `Connect` calls it
  abbrev pub token_request : Text → TokenRequest
  token_request code = record {
    endpoint = c.token_endpoint;
    form = exchange_form code c.verifier c.redirect_uri;
  }

  abbrev pub authorize : Text → OauthError ⊎ Text → Flow → Flow
  authorize code (inl e) f = record f {
    auth_ready = some (some e);
    exchanges = token_request code ∷ f.exchanges;
    phase = draining e;
  }
  authorize code (inr token) f = record f {
    auth_ready = some none;
    auth_complete = true;
    access_token = token;
    exchanges = token_request code ∷ f.exchanges;
    accepted = token ∷ f.accepted;
    phase = awaiting_form;
  }

  abbrev pub exchange_at : Phase → Option Response → Flow → Flow
  exchange_at (exchanging code) r f = authorize code (verify (exchange_code c.decode_token r)) f
  exchange_at _ r f = f

  -- the exchange of the code, with the response to it
  unfoldable pub exchange : Option Response → Flow → Flow
  exchange r f = exchange_at f.phase r f

  abbrev pub take_page_at : Phase → Flow → Flow
  take_page_at (draining e) f =
      if f.page_sent then record f { page_sent = false; phase = returned (inl e) } else f
  take_page_at _ f = f

  -- `<-callbackPageSent`, and the return of the error
  unfoldable pub take_page : Flow → Flow
  take_page f = take_page_at f.phase f

  abbrev pub receive_enrolled : Option (OauthError ⊎ Enrollment) → Flow → Flow
  receive_enrolled none f = f
  receive_enrolled (some r) f = record f { enrolled = none; access_token = []; phase = returned r }

  abbrev pub take_enrolled_at : Phase → Flow → Flow
  take_enrolled_at awaiting_form f = receive_enrolled f.enrolled f
  take_enrolled_at _ f = f

  -- the second `select`, when the result of the enrollment is there
  unfoldable pub take_enrolled : Flow → Flow
  take_enrolled f = take_enrolled_at f.phase f

  abbrev pub give_up_at : Phase → OauthError → Flow → Flow
  give_up_at awaiting_callback e f = record f { phase = returned (inl e) }
  give_up_at awaiting_form e f = record f {
    access_token = [];
    phase = returned (inl form_timed_out);
  }
  give_up_at _ e f = f

  -- either `select`, when the time is over or the server fails
  unfoldable pub give_up : OauthError → Flow → Flow
  give_up e f = give_up_at f.phase e f

  pub data Step (f : Flow) : Flow → Type 0 where
    callback : (q : Callback) → Step f (on_callback q f)
    callback_end : (times_out : Bool) → Step f (answer_callback times_out f)
    form : (r : Form) → Step f (on_form r f)
    form_post : Step f (post_form f)
    form_end : (r : Option Response) (finalizes : Bool) → Step f (end_form r finalizes f)
    main_callback : Step f (take_callback f)
    main_exchange : (r : Option Response) → Step f (exchange r f)
    main_page : Step f (take_page f)
    main_enrolled : Step f (take_enrolled f)
    main_gives_up : (e : OauthError) → Step f (give_up e f)

  -- The flows that can be reached from the start.
  pub data Reach : Flow → Type 0 where
    here : Reach start
    next : {f g : Flow} → Reach f → Step f g → Reach g
