-- ===== src/OAuth/Flow/Invariant.antt =====
-- What holds of every flow that can be reached, in whatever order the goroutines run.
use familiar_fleet.Base.{
  any, Bool, true, false, ◌≡◌, ◌≢◌, ◌⊎◌, inl, inr, Option, none, some, List, [], ◌∷◌, Text, any,
  text_eq, eq_iff, arith, length, ◌≤◌,
}
use familiar_fleet.Enroll.{Post, Response, enroll_post}
use familiar_fleet.OAuth.{OauthError}
use familiar_fleet.OAuth.Flow.{
  main_gives_up, main_exchange, form_end, form, callback, Connection, Flow, Phase, Claim, Page,
  Callback, Form, start, Step, Reach, here, next, callback, callback_end, form, form_post, form_end,
  main_callback, main_exchange, main_page, take_page, Handler, refusing, waiting, draining,
  main_enrolled, main_gives_up, form_page, method_not_allowed, conflict, bad_request, forbidden,
  bad_gateway, timed_out, awaiting_callback, exchanging, awaiting_form, returned, unclaimed, named,
  posted, settled, success_page, on_callback, answer_callback, on_form, post_form, end_form,
  take_callback, exchange, take_enrolled, give_up,
}
use familiar_fleet.State.{Enrollment}
use familiar_fleet.State.Grammar.{match_label}

abbrev is_busy : Handler → Bool
is_busy refusing = true
is_busy waiting = true
is_busy _ = false

-- `callbackPageSent` has been sent, or its handler still runs.
abbrev pub Paging : Flow → Type 0
Paging f = (f.page_sent ≡ true) ⊎ (is_busy f.handler ≡ true)

-- by where the main goroutine is
abbrev AtPhase : Phase → Flow → Type 0
AtPhase awaiting_callback f =
    (f.auth_complete ≡ false)
    × (f.exchanges ≡ [])
    × (f.accepted ≡ [])
    × (f.access_token ≡ [])
    × ((f.callback ≡ none) ⊎ Paging f)
AtPhase (exchanging code) f =
    (f.auth_complete ≡ false)
    × (f.exchanges ≡ [])
    × (f.accepted ≡ [])
    × (f.access_token ≡ [])
    × Paging f
AtPhase (draining e) f =
    (f.access_token ≡ []) × (length f.exchanges ≤ 1) × (length f.accepted ≤ 1) × Paging f
AtPhase awaiting_form f = (length f.exchanges ≡ 1) × (length f.accepted ≡ 1)
AtPhase (returned (inl e)) f =
    (f.access_token ≡ []) × (length f.exchanges ≤ 1) × (length f.accepted ≤ 1)
AtPhase (returned (inr e)) f =
    (f.access_token ≡ []) × (length f.exchanges ≤ 1) × (length f.accepted ≤ 1) × (f.stored ≡ e ∷ [])

abbrev Unfinished : Flow → Type 0
Unfinished f = (f.stored ≡ []) × (f.enrolled ≡ none)

-- the one enrollment request
abbrev pub Sent : List Post → List Text → Type 0
Sent [] accepted = Unit
Sent (p ∷ []) accepted =
    (accepted ≡ p.token ∷ []) × (p.token ≢ []) × (match_label p.request.host ≡ true)
Sent (p ∷ q ∷ ps) accepted = ⊥

-- by where the handler is that has claimed the form
abbrev AtClaim : Claim → Flow → Type 0
AtClaim unclaimed f = (f.form_used ≡ false) × (f.posts ≡ []) × Unfinished f
AtClaim (named name) f =
    (f.form_used ≡ true) × (f.posts ≡ []) × Unfinished f × (match_label name ≡ true)
AtClaim (posted p) f = (f.form_used ≡ true) × Unfinished f
AtClaim settled f = f.form_used ≡ true

abbrev AtEnrolled : Option (OauthError ⊎ Enrollment) → List Enrollment → Type 0
AtEnrolled (some (inr e)) stored = stored ≡ e ∷ []
AtEnrolled _ stored = Unit

abbrev StoredFirst : List Page → List Enrollment → Type 0
StoredFirst [] stored = Unit
StoredFirst (success_page ∷ ps) stored = stored ≢ []
StoredFirst (_ ∷ ps) stored = StoredFirst ps stored

pub record Inv (f : Flow) : Type 0 where
  pub phase : AtPhase f.phase f
  pub claim : AtClaim f.claim f
  pub sent : Sent f.posts f.accepted
  pub token : (f.access_token ≡ []) ⊎ (f.accepted ≡ f.access_token ∷ [])
  pub authorized : f.form_used ≡ true → f.auth_complete ≡ true
  pub granted : f.auth_complete ≡ true → length f.accepted ≡ 1
  pub enrolled : AtEnrolled f.enrolled f.stored
  pub stored : length f.stored ≤ 1
  pub pages : StoredFirst f.pages f.stored

start-Inv : Inv start
unfolding start
start-Inv = ground arith

module _ (c : Connection) (f : Flow) (h : Inv f) where
  on_callback-Inv : (q : Callback) → Inv (on_callback c q f)
  unfolding on_callback
  on_callback-Inv q = ground arith

  answer_callback-Inv : (b : Bool) → Inv (answer_callback c b f)
  unfolding answer_callback
  answer_callback-Inv b = ground arith

  take_page-Inv : Inv (take_page c f)
  unfolding take_page
  take_page-Inv = ground arith

  on_form-Inv : (r : Form) → Inv (on_form c r f)
  unfolding on_form
  on_form-Inv r = ground arith

  post_form-Inv : Inv (post_form c f)
  unfolding post_form enroll_post
  post_form-Inv = ground (arith, eq_iff f.access_token [])

  end_form-Inv : (r : Option Response) (finalizes : Bool) → Inv (end_form c r finalizes f)
  unfolding end_form
  end_form-Inv r finalizes = ground arith

  take_callback-Inv : Inv (take_callback c f)
  unfolding take_callback
  take_callback-Inv = ground arith

  exchange-Inv : (r : Option Response) → Inv (exchange c r f)
  unfolding exchange
  exchange-Inv r = ground arith

  take_enrolled-Inv : Inv (take_enrolled c f)
  unfolding take_enrolled
  take_enrolled-Inv = ground arith

  give_up-Inv : (e : OauthError) → Inv (give_up c e f)
  unfolding give_up
  give_up-Inv e = ground arith

pub Step-Inv : (c : Connection) {f g : Flow} → Step c f g → Inv f → Inv g
Step-Inv c {f} (callback q) h = on_callback-Inv c f h q
Step-Inv c {f} (callback_end b) h = answer_callback-Inv c f h b
Step-Inv c {f} main_page h = take_page-Inv c f h
Step-Inv c {f} (form r) h = on_form-Inv c f h r
Step-Inv c {f} form_post h = post_form-Inv c f h
Step-Inv c {f} (form_end r finalizes) h = end_form-Inv c f h r finalizes
Step-Inv c {f} main_callback h = take_callback-Inv c f h
Step-Inv c {f} (main_exchange r) h = exchange-Inv c f h r
Step-Inv c {f} main_enrolled h = take_enrolled-Inv c f h
Step-Inv c {f} (main_gives_up e) h = give_up-Inv c f h e

pub Reach-Inv : (c : Connection) {f : Flow} → Reach c f → Inv f
Reach-Inv c here = start-Inv
Reach-Inv c (next r s) = Step-Inv c s (Reach-Inv c r)

-- In every flow that can be reached: at most one code was exchanged and at most one enrollment request
-- sent, and that request has a valid machine name and the one access token that was accepted.
pub Reach-Sent :
    (c : Connection) (f : Flow) → Reach c f → (length f.exchanges ≤ 1) × Sent f.posts f.accepted
Reach-Sent c f r = let h = Reach-Inv c r in (ground (arith, h.phase), h.sent)

abbrev pub is_success_page : Page → Bool
is_success_page success_page = true
is_success_page _ = false

shown_stored :
    (ps : List Page) (stored : List Enrollment)
    → StoredFirst ps stored
    → any is_success_page ps ≡ true
    → stored ≢ []
shown_stored [] stored h k = absurd (ground arith)
shown_stored (success_page ∷ ps) stored h k = h
shown_stored (form_page ∷ ps) stored h k = shown_stored ps stored h k
shown_stored (method_not_allowed ∷ ps) stored h k = shown_stored ps stored h k
shown_stored (conflict ∷ ps) stored h k = shown_stored ps stored h k
shown_stored (bad_request ∷ ps) stored h k = shown_stored ps stored h k
shown_stored (forbidden ∷ ps) stored h k = shown_stored ps stored h k
shown_stored (bad_gateway ∷ ps) stored h k = shown_stored ps stored h k
shown_stored (timed_out ∷ ps) stored h k = shown_stored ps stored h k

-- Where the success page was sent, exactly one enrollment has been stored by then.
pub Reach-success_page :
    (c : Connection) (f : Flow)
    → Reach c f
    → any is_success_page f.pages ≡ true
    → length f.stored ≡ 1
Reach-success_page c f r k =
    let h = Reach-Inv c r in
    let e = shown_stored f.pages f.stored h.pages k in ground (arith, h.stored, e)

-- What a returned connection leaves.
abbrev pub Returned : OauthError ⊎ Enrollment → Flow → Type 0
Returned (inl e) f = f.access_token ≡ []
Returned (inr e) f = (f.access_token ≡ []) × (f.stored ≡ e ∷ [])

-- Where `Connect` has returned, it has dropped the access token; where it has returned an enrollment,
-- that enrollment, and no other, was stored.
pub Reach-Returned :
    (c : Connection) (f : Flow) (r : OauthError ⊎ Enrollment)
    → Reach c f
    → f.phase ≡ returned r
    → Returned r f
Reach-Returned c f (inl e) s k = let h = Reach-Inv c s in ground (arith, h.phase)
Reach-Returned c f (inr e) s k = let h = Reach-Inv c s in ground (arith, h.phase)
