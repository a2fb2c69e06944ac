-- ===== src/OAuth/Flow/Ending.antt =====
-- `Connect` ends once its time is over.
use familiar_fleet.Base.{true, ◌≡◌, inl, refl, none, arith}
use familiar_fleet.OAuth.Flow.Invariant.{Inv, Reach-Inv}
use familiar_fleet.OAuth.{OauthError, exchange_code, token_exchange_failed, form_timed_out}
use familiar_fleet.OAuth.Flow.{
  Connection, Flow, Phase, awaiting_callback, exchanging, awaiting_form, returned, Reach, next,
  main_exchange, main_gives_up, exchange, give_up, draining, main_page, callback_end, take_page,
  answer_callback,
}

module _ (c : Connection) (e : OauthError) where
  -- What happens when the time is over: a request that the main goroutine waits for fails, the handler
  -- of the callback leaves its `select` and writes its page, the main goroutine takes the word of that
  -- page, and a `select` of it takes the end of the context.
  abbrev pub time_over : Flow → Flow
  time_over f = give_up c e (take_page c (answer_callback c true (exchange c none f)))

  -- How the flow has ended.
  abbrev pub HasReturned : Phase → Phase → Type 0
  HasReturned (returned r) p = p ≡ returned r
  HasReturned (draining x) p = p ≡ returned (inl x)
  HasReturned _ p = (x : OauthError) × (p ≡ returned (inl x))

  returned_by_phase :
      (f : Flow) → Inv f → (p : Phase) → f.phase ≡ p → HasReturned p (time_over f).phase
  unfolding give_up exchange exchange_code take_page answer_callback
  returned_by_phase f i awaiting_callback h = (e, ground (arith, h))
  returned_by_phase f i (exchanging code) h = (token_exchange_failed, ground (arith, h, i.phase))
  returned_by_phase f i (draining x) h = ground (arith, h, i.phase)
  returned_by_phase f i awaiting_form h = (form_timed_out, ground (arith, h))
  returned_by_phase f i (returned r) h = ground (arith, h)

  -- From every flow that can be reached, the failure of the exchange, the end of the callback's
  -- handler, the receive of its word and the end of the time, where each of them applies, lead to a
  -- flow that can be reached and in which `Connect` has returned: with an error, with the error that
  -- it was about to return, or with what it had returned before. The receive, which no time limit
  -- ends, does not block it.
  pub connect-HasReturned :
      (f : Flow) → Reach c f → Reach c (time_over f) × HasReturned f.phase (time_over f).phase
  connect-HasReturned f r = (
    next (next (next (next r (main_exchange none)) (callback_end true)) main_page)
        (main_gives_up e),
    returned_by_phase f (Reach-Inv c r) f.phase refl,
  )
