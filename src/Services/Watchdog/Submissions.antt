-- ===== src/Services/Watchdog/Submissions.antt =====
-- The automaton of the protocol reads what a submission of the watchdog leaves.
use hypercarry.Base.{
  ℕ, ◌≤◌, ◌<◌, ◌≡◌, refl, sym, ap, ◌∙◌, ◌⊎◌, inl, inr, Option, some, List, ◌∷◌, max, arith,
  Bool-cases,
}
use hypercarry.Base.Int.{checked_add_u64}
use hypercarry.Base.Text.{Text, codes}
use hypercarry.Base.Json.{Json, json_eq, get_or_null, text, bool_eq}
use hypercarry.Base.Outcome.{value}
use hypercarry.Decimal.{Decimal}
use hypercarry.Services.Policy.{RuntimeConfig, ServicePolicy}
use hypercarry.Services.Signing.{
  SigningRequest, schedule_action, cancel_action, flatten_action, validate_request, is_buy,
}
use hypercarry.Services.Watchdog.World.{
  WatchdogState, Effect, submitted, World, ◌>>=◌, ◌>>◌, answer, require, emit,
}
use hypercarry.Services.Watchdog.{
  SubmitAnswers, EmergencyAnswers, validated, post, submit, request_of, flatten_position,
  close_position, closing_price, closing_size,
}
use hypercarry.Services.Watchdog.Rules.{
  After, bind-After, answer-After, lift-After, require-After, save-After, require_last,
  weaken-After,
}
use hypercarry.Services.Watchdog.Spec.{
  Phase, watching, stopped, cancelling, closing, Spec, IsSigned, IsFresh, Step, Follows, then_step,
  At, Somewhere,
}

module _ {Num : Type 0} ⦃d : Decimal Num⦄ (from_str : Text → Option Num) (sha256 : List ℕ → List ℕ)
    (r : RuntimeConfig Num) (p : ServicePolicy Num) (start : Spec) where
  abbrev pub Reaches : Phase → World → Type 0
  Reaches phase w = At from_str sha256 r p start phase w

  -- One more effect that the automaton reads without moving.
  stay :
      (phase : Phase) (w : World) (e : Effect) (s : WatchdogState)
      → w.state.last_nonce ≤ s.last_nonce
      → ((v : Spec) → v.phase ≡ phase → Step from_str sha256 r p v e v)
      → Reaches phase w
      → Reaches phase (record { state = s; trace = e ∷ w.trace })
  stay phase w e s grows step (v, follows, at, below) =
      (v, then_step e follows (step v at), at, omega arith)

  module _ (phase phase' : Phase) (action : Json)
      (step : (q : SigningRequest) (v : Spec)
        → q.action ≡ action
        → v.phase ≡ phase
        → IsFresh from_str sha256 r p v q
        → Step from_str sha256 r p v
            (submitted q)
            (record { phase = phase'; nonce = q.nonce })) where
    abbrev Either : World → Type 0
    Either w = Reaches phase w ⊎ Reaches phase' w

    -- Before the submission of a request: no nonce so far reaches its own.
    abbrev Ready : SigningRequest → World → Type 0
    Ready q w =
        (v : Spec) × Follows from_str sha256 r p start w.trace v
        × (v.phase ≡ phase)
        × (v.nonce < q.nonce)
        × (w.state.last_nonce ≡ q.nonce)

    Ready-fails : (q : SigningRequest) (w : World) → Ready q w → Either w
    Ready-fails q w (v, follows, at, newer, last) = inl (v, follows, at, omega arith)

    validated-After :
        (q : SigningRequest) (clock : Option ℕ) (w : World)
        → Ready q w
        → After (λ done. Ready q) Either (validated from_str sha256 r p q clock w)
    unfolding validated
    validated-After q clock w h =
        answer-After Either (λ done. Ready q) clock _ _ (Ready-fails q w h)
          λ now e1.
            lift-After Either (λ done. Ready q) (validate_request from_str sha256 q r p now) _ _
              (Ready-fails q w h) λ purpose e2. h

    response-After :
        (a : SubmitAnswers) (w : World)
        → Reaches phase' w
        → After
            (λ done. Reaches phase')
            Either
            ((answer a.response >>= λ response.
                require (json_eq (get_or_null response (codes "status")) (text (codes "ok"))))
              w)
    response-After a w h =
        answer-After Either (λ done. Reaches phase') a.response _ _ (inr h)
          λ response e.
            require_last Either (λ done. Reaches phase')
              (json_eq (get_or_null response (codes "status")) (text (codes "ok"))) _ (inr h)
              λ e'. h

    post-After :
        (q : SigningRequest) (a : SubmitAnswers) (w : World)
        → q.action ≡ action
        → w.state.last_nonce < q.nonce
        → IsSigned from_str sha256 r p q
        → Reaches phase w
        → After (λ done. Reaches phase') Either (post from_str sha256 r p q a w)
    unfolding post
    post-After q a w same newer signed (v, follows, at, below) =
        let s : WatchdogState = record w.state { last_nonce = q.nonce } in
        let w0 : World = record w { state = s } in
        let w1 : World = record { state = s; trace = Effect.state_saved s ∷ w.trace } in
        let kept : Ready q w0 = (v, follows, at, omega arith, refl) in
        let saved : Ready q w1 = (v, then_step _ follows (Step.save s), at, omega arith, refl) in
        save-After Either R a.saved _ _ (Ready-fails q w0 kept) (
          require-After Either R a.agent _ _ (Ready-fails q w1 saved) λ e1.
            require-After Either R a.signed _ _ (Ready-fails q w1 saved) λ e2.
              bind-After Either R (λ done. Ready q) (validated from_str sha256 r p q a.now_signed) _
                _ (validated-After q a.now_signed w1 saved)
                λ done w2 h2. require-After Either R a.agent_again _ _ (Ready-fails q w2 h2) λ e3.
                  bind-After Either R (λ done. Ready q)
                    (validated from_str sha256 r p q a.now_posted) _ _
                    (validated-After q a.now_posted w2 h2) λ done' w3 h3. sent w3 h3)
      where
        R : Unit {0} → World → Type 0
        R done = Reaches phase'

        sent :
            (w2 : World)
            → Ready q w2
            → After R Either (
                (emit (submitted q)
                    >> (answer a.response >>= λ response.
                        require
                          (json_eq (get_or_null response (codes "status")) (text (codes "ok")))))
                  w2)
        sent w2 (u, follows2, at2, newer2, last2) =
            response-After a (record w2 { trace = submitted q ∷ w2.trace })
              (
                record { phase = phase'; nonce = q.nonce },
                then_step _ follows2 (step q u same at2 (newer2, signed)),
                refl,
                omega arith,
              )

    submit-After :
        (a : SubmitAnswers) (w : World)
        → Reaches phase w
        → After (λ done. Reaches phase') Either (submit from_str sha256 r p a action w)
    unfolding submit
    submit-After a w h = answer-After Either R a.now _ _ (inl h) λ now e1.
        answer-After Either R (checked_add_u64 w.state.last_nonce 1) _ _ (inl h) λ after e2.
          answer-After Either R (checked_add_u64 (max now after) r.action_ttl_ms) _ _ (inl h)
            λ expires e3.
              lift-After Either R
                (validate_request from_str sha256
                  (request_of from_str sha256 r p (max now after) expires action) r p now)
                _ _ (inl h)
                λ purpose e4.
                  post-After (request_of from_str sha256 r p (max now after) expires action) a w
                    refl (newer now after e2) (now, purpose, e4) h
      where
        R : Unit {0} → World → Type 0
        R done = Reaches phase'

        newer :
            (now after : ℕ)
            → checked_add_u64 w.state.last_nonce 1 ≡ some after
            → w.state.last_nonce < max now after
        newer now after e = ground arith

  -- What every failure leaves.
  abbrev pub Anywhere : World → Type 0
  Anywhere w = Somewhere from_str sha256 r p start w

  either-Anywhere :
      (phase phase' : Phase) (w : World) → Reaches phase w ⊎ Reaches phase' w → Anywhere w
  either-Anywhere phase phase' w (inl h) = (phase, h)
  either-Anywhere phase phase' w (inr h) = (phase', h)

  abbrev pub Then : Phase → Unit {0} → World → Type 0
  Then phase done w = Reaches phase w

  abbrev pub Ends : Unit {0} → World → Type 0
  Ends done w = Anywhere w

  abbrev pub OneOf : Phase → Phase → World → Type 0
  OneOf phase phase' w = Reaches phase w ⊎ Reaches phase' w

  pub cancel-After :
      (a : SubmitAnswers) (action : Json) (w : World)
      → cancel_action sha256 r ≡ value action
      → Reaches stopped w
      → After (Then cancelling) Anywhere (submit from_str sha256 r p a action w)
  cancel-After a action w built h =
      weaken-After (Then cancelling) (Then cancelling) (OneOf stopped cancelling) Anywhere
        (submit from_str sha256 r p a action w) (λ done w'. λ x. x)
        (either-Anywhere stopped cancelling)
        (submit-After stopped cancelling action
          (λ q v same at fresh. Step.cancel q at (built ∙ ap value (sym same)) fresh refl) a w h)

  pub close-After :
      (a : SubmitAnswers) (price size : Num) (action : Json) (w : World)
      → flatten_action r price size ≡ value action
      → Reaches cancelling w
      → After (Then closing) Anywhere (submit from_str sha256 r p a action w)
  close-After a price size action w built h =
      weaken-After (Then closing) (Then closing) (OneOf cancelling closing) Anywhere
        (submit from_str sha256 r p a action w) (λ done w'. λ x. x)
        (either-Anywhere cancelling closing)
        (submit-After cancelling closing action
          (λ q v same at fresh. Step.close q price size at (built ∙ ap value (sym same)) fresh refl)
          a w h)

  pub arm-After :
      (a : SubmitAnswers) (at : ℕ) (w : World)
      → Reaches watching w
      → After
          (Then watching)
          (Reaches watching)
          (submit from_str sha256 r p a (schedule_action at) w)
  arm-After a at w h =
      weaken-After (Then watching) (Then watching) (OneOf watching watching) (Reaches watching)
        (submit from_str sha256 r p a (schedule_action at) w) (λ done w'. λ x. x) both
        (submit-After watching watching (schedule_action at)
          (λ q v same on fresh. Step.arm q at on same fresh refl) a w h)
    where
      both : (w' : World) → Reaches watching w' ⊎ Reaches watching w' → Reaches watching w'
      both w' (inl x) = x
      both w' (inr x) = x

  flatten-After :
      (e : EmergencyAnswers Num) (position : Num) (w : World)
      → Reaches cancelling w
      → After Ends Anywhere (flatten_position from_str sha256 r p e position w)
  unfolding flatten_position
  flatten-After e position w h =
      require-After Anywhere Ends (bool_eq (d.lt d.zero position) (is_buy r.order.side)) _ w
        (cancelling, h)
        λ e1.
          answer-After Anywhere Ends (closing_size from_str sha256 r p position) _ w (cancelling, h)
            λ size e2.
              lift-After Anywhere Ends
                (flatten_action r (closing_price from_str sha256 r p position) size) _ w
                (cancelling, h)
                λ action e3.
                  weaken-After (Then closing) Ends Anywhere Anywhere
                    (submit from_str sha256 r p e.flattening action w) (λ done w' x. (closing, x))
                    (λ w' x. x)
                    (close-After e.flattening (closing_price from_str sha256 r p position) size
                      action w e3 h)

  pub close_position-After :
      (e : EmergencyAnswers Num) (position : Num) (w : World)
      → Reaches cancelling w
      → After Ends Anywhere (close_position from_str sha256 r p e position w)
  unfolding close_position
  close_position-After e position w h = elim (Bool-cases (d.eq position d.zero)) [
    | inl flat ↦ rw flat (cancelling, h)
    | inr open_position ↦ rw open_position (flatten-After e position w h)
  ]
