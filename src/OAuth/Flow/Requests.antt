-- ===== src/OAuth/Flow/Requests.antt =====
-- What `Connect` posts to the token endpoint.
use familiar_fleet.Base.{All, ◌≡◌, ◌⊎◌, inl, inr, refl, sym, subst, Option, ◌∷◌, Text, arith}
use familiar_fleet.Enroll.{Response}
use familiar_fleet.OAuth.Flow.{
  Connection, Flow, Phase, awaiting_callback, exchanging, draining, awaiting_form, returned,
  TokenRequest, token_request, Step, Reach, start, here, next, callback, callback_end, form,
  form_post, form_end, main_callback, main_page, take_page, main_exchange, main_enrolled,
  main_gives_up, on_callback, answer_callback, on_form, post_form, end_form, take_callback,
  exchange, take_enrolled, give_up,
}

abbrev pub IsRequest : Connection → TokenRequest → Type 0
IsRequest c r = (code : Text) × (r ≡ token_request c code)

-- A step posts nothing, or one request that is made of the connection and a code.
abbrev Posts : Connection → Flow → Flow → Type 0
Posts c f g =
    (g.exchanges ≡ f.exchanges)
    ⊎ ((code : Text) × (g.exchanges ≡ token_request c code ∷ f.exchanges))

module _ (c : Connection) (f : Flow) where
  exchange-Posts : (q : Option Response) (p : Phase) → f.phase ≡ p → Posts c f (exchange c q f)
  unfolding exchange
  exchange-Posts q awaiting_callback h = inl (ground (arith, h))
  exchange-Posts q (exchanging code) h = inr (code, ground (arith, h))
  exchange-Posts q (draining e) h = inl (ground (arith, h))
  exchange-Posts q awaiting_form h = inl (ground (arith, h))
  exchange-Posts q (returned r) h = inl (ground (arith, h))

  Step-Posts : (g : Flow) → Step c f g → Posts c f g
  unfolding on_callback answer_callback on_form post_form end_form take_callback take_page exchange
      take_enrolled give_up
  Step-Posts g (callback q) = inl (ground arith)
  Step-Posts g (callback_end b) = inl (ground arith)
  Step-Posts g (form q) = inl (ground arith)
  Step-Posts g form_post = inl (ground arith)
  Step-Posts g (form_end q b) = inl (ground arith)
  Step-Posts g main_callback = inl (ground arith)
  Step-Posts g main_page = inl (ground arith)
  Step-Posts g (main_exchange q) = exchange-Posts q f.phase refl
  Step-Posts g main_enrolled = inl (ground arith)
  Step-Posts g (main_gives_up e) = inl (ground arith)

by_outcome :
    (c : Connection) (f g : Flow)
    → Posts c f g
    → All (IsRequest c) f.exchanges
    → All (IsRequest c) g.exchanges
by_outcome c f g (inl e) h = subst (All (IsRequest c)) (sym e) h
by_outcome c f g (inr (code, e)) h = subst (All (IsRequest c)) (sym e) ((code, refl), h)

pub Reach-requests : (c : Connection) {f : Flow} → Reach c f → All (IsRequest c) f.exchanges
unfolding start
Reach-requests c here = tt
Reach-requests c (next {f} {g} r s) = by_outcome c f g (Step-Posts c f g s) (Reach-requests c r)
