-- ===== src/OAuth/Flow/Stages.antt =====
-- `Connect` as a refinement of a machine of four stages.
use familiar_fleet.Base.{Bool, true, false, ◌≡◌, ◌⊎◌, Option, List, [], ◌∷◌, text_eq, arith}
use familiar_fleet.Enroll.{Response}
use familiar_fleet.OAuth.{OauthError}
use familiar_fleet.OAuth.Flow.{
  Connection, Flow, Callback, Form, Step, Reach, callback, callback_end, form, form_post, form_end,
  main_page, take_page, main_callback, main_exchange, main_enrolled, main_gives_up, on_callback,
  answer_callback, on_form, post_form, end_form, take_callback, exchange, take_enrolled, give_up,
}
use familiar_fleet.OAuth.Flow.Invariant.{Inv, Reach-Inv}
use familiar_fleet.State.{Enrollment}

-- What an observer needs to know of a connection: nothing is granted, the code was exchanged, the form
-- was submitted, or an enrollment is stored.
pub data Stage : Type 0 where
  unauthorized authorized submitted : Stage
  enrolled : Enrollment → Stage

-- The moves of the machine; none leaves out a stage, and none goes back.
abbrev pub Moves : Stage → Stage → Type 0
Moves unauthorized authorized = Unit
Moves authorized submitted = Unit
Moves submitted (enrolled e) = Unit
Moves _ _ = ⊥

abbrev pub stage_of : List Enrollment → (form_used auth_complete : Bool) → Stage
stage_of (e ∷ es) form_used auth_complete = enrolled e
stage_of [] true auth_complete = submitted
stage_of [] false true = authorized
stage_of [] false false = unauthorized

abbrev pub stage : Flow → Stage
stage f = stage_of f.stored f.form_used f.auth_complete

abbrev pub Advances : Flow → Flow → Type 0
Advances f g = (stage g ≡ stage f) ⊎ Moves (stage f) (stage g)

module _ (c : Connection) (f : Flow) (h : Inv f) where
  on_callback-Advances : (q : Callback) → Advances f (on_callback c q f)
  unfolding on_callback
  on_callback-Advances q = ground arith

  answer_callback-Advances : (b : Bool) → Advances f (answer_callback c b f)
  unfolding answer_callback
  answer_callback-Advances b = ground arith

  take_page-Advances : Advances f (take_page c f)
  unfolding take_page
  take_page-Advances = ground arith

  on_form-Advances : (r : Form) → Advances f (on_form c r f)
  unfolding on_form
  on_form-Advances r = ground arith

  post_form-Advances : Advances f (post_form c f)
  unfolding post_form
  post_form-Advances = ground arith

  end_form-Advances :
      (r : Option Response) (finalizes : Bool) → Advances f (end_form c r finalizes f)
  unfolding end_form
  end_form-Advances r finalizes = ground arith

  take_callback-Advances : Advances f (take_callback c f)
  unfolding take_callback
  take_callback-Advances = ground arith

  exchange-Advances : (r : Option Response) → Advances f (exchange c r f)
  unfolding exchange
  exchange-Advances r = ground arith

  take_enrolled-Advances : Advances f (take_enrolled c f)
  unfolding take_enrolled
  take_enrolled-Advances = ground arith

  give_up-Advances : (e : OauthError) → Advances f (give_up c e f)
  unfolding give_up
  give_up-Advances e = ground arith

-- Each step from a flow that can be reached leaves the stage, or is a move of the machine: an
-- enrollment is stored only behind a submitted form, and that only behind an exchanged code.
pub Step-Advances : (c : Connection) (f g : Flow) → Reach c f → Step c f g → Advances f g
Step-Advances c f g r (callback q) = on_callback-Advances c f (Reach-Inv c r) q
Step-Advances c f g r (callback_end b) = answer_callback-Advances c f (Reach-Inv c r) b
Step-Advances c f g r main_page = take_page-Advances c f (Reach-Inv c r)
Step-Advances c f g r (form q) = on_form-Advances c f (Reach-Inv c r) q
Step-Advances c f g r form_post = post_form-Advances c f (Reach-Inv c r)
Step-Advances c f g r (form_end q b) = end_form-Advances c f (Reach-Inv c r) q b
Step-Advances c f g r main_callback = take_callback-Advances c f (Reach-Inv c r)
Step-Advances c f g r (main_exchange q) = exchange-Advances c f (Reach-Inv c r) q
Step-Advances c f g r main_enrolled = take_enrolled-Advances c f (Reach-Inv c r)
Step-Advances c f g r (main_gives_up e) = give_up-Advances c f (Reach-Inv c r) e
