-- ===== src/Execution/Reliability/Delay.antt =====
-- The delay that the throttle of crates/hypercarry-execution/src/reliability.rs suggests.
use hypercarry.Base.{
  ℕ, ◌+◌, ◌-◌, ◌≤◌, ◌<◌, ◌≡◌, refl, sym, ap, ◌∙◌, subst, inl, inr, true, false, ◌||◌, Option, none,
  some, List, [], ◌∷◌, length, arith, Bool-cases, Option-cases,
}
use hypercarry.Base.Int.{
  ℤ, pos, negsuc, pos_part, neg_part, ltb_ℤ, ◌-ℤ◌, ◌+ℤ◌, ◌≤ℤ◌, ◌<ℤ◌, checked_add, checked_sub,
  is_i64, IsI64, i64_bound, int_laws, +ℤ_parts,
}
use hypercarry.Execution.Error.{Result, ok}
use hypercarry.Execution.Reliability.{
  ThrottleDecision, allow, wait, RequestThrottle, back, front, precedes, drop_expired, delay_from,
  retry_delay, admit_live, admit,
}
use hypercarry.Execution.Reliability.Window.{
  Admits, admitted, refused, delayed, pruned, admit-Admits, drop_expired-full, length-drop_expired,
}

-- A full throttle whose front leaves the window `d` milliseconds after `now`.
pub record IsWaiting (t : RequestThrottle) (now : ℤ) (d : ℕ) : Type 0 where
  pub first : ℤ
  pub is_front : front t.admitted_at_ms ≡ some first
  pub in_range : is_i64 (first +ℤ t.window_ms) ≡ true
  pub remaining : first +ℤ t.window_ms ≡ now +ℤ pos d
  pub full : t.max_requests ≤ length t.admitted_at_ms
  pub not_before : precedes now (back t.admitted_at_ms) ≡ false
  pub after_epoch : pos 0 ≤ℤ now

i64_of : (a : ℤ) → IsI64 a → is_i64 a ≡ true
i64_of a h = ground arith

i64_between : (a : ℤ) → negsuc (i64_bound - 1) ≤ℤ a → a ≤ℤ pos (i64_bound - 1) → is_i64 a ≡ true
i64_between a lo hi = ground arith

checked_add_ok : (a b : ℤ) → is_i64 (a +ℤ b) ≡ true → checked_add a b ≡ some (a +ℤ b)
unfolding checked_add
checked_add_ok a b h = rw h

checked_sub_ok : (a b : ℤ) → is_i64 (a -ℤ b) ≡ true → checked_sub a b ≡ some (a -ℤ b)
unfolding checked_sub
checked_sub_ok a b h = rw h

add_back : (a b : ℤ) (d : ℕ) → a -ℤ b ≡ pos d → a ≡ b +ℤ pos d
unfolding ◌+ℤ◌ ◌-ℤ◌
add_back a b d h = ground arith

-- What `retry_delay` computes.
delay_parts :
    (t : RequestThrottle) (now : ℤ) (d : ℕ)
    → retry_delay t now ≡ ok (wait d)
    → (first : ℤ) × (front t.admitted_at_ms ≡ some first)
      × (is_i64 (first +ℤ t.window_ms) ≡ true)
      × ((first +ℤ t.window_ms) -ℤ now ≡ pos d)
delay_parts t now d h = elim (Option-cases (front t.admitted_at_ms)) [
  | inl e ↦ absurd (unfold retry_delay in ground arith)
  | inr (f, e) ↦ elim (Bool-cases (is_i64 (f +ℤ t.window_ms))) [
    | inl i ↦ (f, e, i, unfold retry_delay checked_add checked_sub in ground arith)
    | inr i ↦ absurd (unfold retry_delay checked_add in ground arith)
  ]
]

admit_time :
    (t : RequestThrottle) (now : ℤ) {t' : RequestThrottle} {x : ThrottleDecision}
    → admit t now ≡ (t', ok x)
    → (pos 0 ≤ℤ now) × (precedes now (back t.admitted_at_ms) ≡ false)
unfolding admit
admit_time t now h = elim (Bool-cases (ltb_ℤ now (pos 0) || precedes now (back t.admitted_at_ms))) [
  | inl bad ↦ absurd (ground arith)
  | inr good ↦ ground arith
]

pruned_full :
    (t : RequestThrottle) (now : ℤ)
    → length t.admitted_at_ms ≤ t.max_requests
    → t.max_requests ≤ length (pruned t now).admitted_at_ms
    → pruned t now ≡ t
pruned_full t now h full =
    ap (λ q. record t { admitted_at_ms = q })
      (drop_expired-full t.max_requests t.window_ms now t.admitted_at_ms h full)

-- A call that was told to wait has changed nothing.
pub IsWaiting-of_admit :
    (t t' : RequestThrottle) (now : ℤ) (d : ℕ)
    → length t.admitted_at_ms ≤ t.max_requests
    → admit t now ≡ (t', ok (wait d))
    → (t' ≡ t) × IsWaiting t now d
IsWaiting-of_admit t t' now d h e = go (admit t now) (admit-Admits t now) e
  where
    go :
        (r : RequestThrottle × Result ThrottleDecision)
        → Admits t now r
        → r ≡ (t', ok (wait d))
        → (t' ≡ t) × IsWaiting t now d
    go r (refused x) y = absurd (ground arith)
    go r (admitted p room x) y = absurd (ground arith)
    go r (delayed full x) y =
        let same = pruned_full t now h full in
        let z : (t, retry_delay t now) ≡ (t', ok (wait d)) =
          ap (λ u. (u, retry_delay u now)) (sym same) ∙ sym x ∙ y in
        let (f, ef, i, r) = delay_parts t now d (ap (λ p. p.1) z) in
        let time = admit_time t now e in
        (
          ap (λ p. p.0) (sym z),
          record {
            first = f;
            is_front = ef;
            in_range = i;
            remaining = add_back _ now d r;
            full = subst (λ u. t.max_requests ≤ length u.admitted_at_ms) same full;
            not_before = time.1;
            after_epoch = time.0;
          },
        )

-- A deque whose front is still in the window keeps every entry.
drop_expired-front :
    (cutoff f : ℤ) (q : List ℤ) → front q ≡ some f → cutoff <ℤ f → drop_expired cutoff q ≡ q
unfolding drop_expired
drop_expired-front cutoff f [] e h = refl
drop_expired-front cutoff f (x ∷ q) e h = ground arith

-- And one whose front has left it loses one at least.
drop_expired-first :
    (cutoff f : ℤ) (q : List ℤ)
    → front q ≡ some f
    → f ≤ℤ cutoff
    → length (drop_expired cutoff q) < length q
unfolding drop_expired
drop_expired-first cutoff f [] e h = absurd (ground arith)
drop_expired-first cutoff f (x ∷ q) e h = ground (arith, length-drop_expired cutoff q)

later_not_before :
    (now : ℤ) (e : ℕ) (b : Option ℤ) → precedes now b ≡ false → precedes (now +ℤ pos e) b ≡ false
unfolding ◌+ℤ◌
later_not_before now e none h = refl
later_not_before now e (some x) h = ground arith

difference : (now : ℤ) (d e : ℕ) → e ≤ d → (now +ℤ pos d) -ℤ (now +ℤ pos e) ≡ pos (d - e)
difference now d e h = omega int_laws

module _ (t : RequestThrottle) (now : ℤ) (d e : ℕ) (window_pos : pos 0 <ℤ t.window_ms)
    (window_i64 : IsI64 t.window_ms) (waiting : IsWaiting t now d) (soon : e ≤ d) where
  first-IsI64 : IsI64 (now +ℤ pos d)
  first-IsI64 = ground (arith, waiting.in_range, waiting.remaining)

  later_in_time :
      ltb_ℤ (now +ℤ pos e) (pos 0) || precedes (now +ℤ pos e) (back t.admitted_at_ms) ≡ false
  later_in_time = ground (
    arith,
    +ℤ_parts now (pos e),
    later_not_before now e (back t.admitted_at_ms) waiting.not_before,
    waiting.after_epoch,
  )

  cutoff_ok : checked_sub (now +ℤ pos e) t.window_ms ≡ some ((now +ℤ pos e) -ℤ t.window_ms)
  cutoff_ok = checked_sub_ok (now +ℤ pos e) t.window_ms (
      i64_between ((now +ℤ pos e) -ℤ t.window_ms)
        (omega (int_laws, window_i64, waiting.after_epoch)) (omega (int_laws, first-IsI64)))

  rest_sub : checked_sub (now +ℤ pos d) (now +ℤ pos e) ≡ some (pos (d - e))
  rest_sub =
      checked_sub_ok (now +ℤ pos d) (now +ℤ pos e) (
        i64_between ((now +ℤ pos d) -ℤ (now +ℤ pos e)) (omega (int_laws, soon))
          (omega (int_laws, first-IsI64, waiting.after_epoch)))
      ∙ ap some (difference now d e soon)

  rest_of_delay : retry_delay t (now +ℤ pos e) ≡ ok (wait (d - e))
  unfolding retry_delay
  rest_of_delay = rw (
    waiting.is_front,
    checked_add_ok waiting.first t.window_ms waiting.in_range,
    waiting.remaining,
    delay_from,
    rest_sub,
  )

  first_lies :
      pos_part waiting.first + pos_part t.window_ms + neg_part now
      ≡ neg_part waiting.first + neg_part t.window_ms + pos_part now + d
  first_lies = omega (
    arith,
    +ℤ_parts waiting.first t.window_ms,
    +ℤ_parts now (pos d),
    ap pos_part waiting.remaining,
    ap neg_part waiting.remaining,
  )

  admit_later : admit t (now +ℤ pos e) ≡ admit_live (pruned t (now +ℤ pos e)) (now +ℤ pos e)
  unfolding admit
  admit_later = rw (later_in_time, cutoff_ok)

module _ (t t' : RequestThrottle) (now : ℤ) (d e : ℕ) (window_pos : pos 0 <ℤ t.window_ms)
    (window_i64 : IsI64 t.window_ms) (fits : length t.admitted_at_ms ≤ t.max_requests)
    (told : admit t now ≡ (t', ok (wait d))) where
  -- A caller that was told to wait `d` milliseconds and asks again sooner, with no other call between,
  -- is told to wait for the rest, and neither call changes the throttle.
  pub wait_early : e < d → (t' ≡ t) × (admit t' (now +ℤ pos e) ≡ (t', ok (wait (d - e))))
  unfolding admit_live
  wait_early sooner =
      let (same, w) = IsWaiting-of_admit t t' now d fits told in
      let kept : pruned t (now +ℤ pos e) ≡ t =
        ap (λ q. record t { admitted_at_ms = q })
          (drop_expired-front _ w.first t.admitted_at_ms w.is_front
            (omega (int_laws, first_lies t now d e window_pos window_i64 w (omega arith)))) in
      let early : admit t (now +ℤ pos e) ≡ (t, ok (wait (d - e))) =
        admit_later t now d e window_pos window_i64 w (omega arith)
        ∙ ap (λ u. admit_live u (now +ℤ pos e)) kept
        ∙ ground (arith, w.full, rest_of_delay t now d e window_pos window_i64 w (omega arith)) in
      subst (λ u. (u ≡ t) × (admit u (now +ℤ pos e) ≡ (u, ok (wait (d - e))))) (sym same)
        (refl, early)

  -- A caller that asks again after exactly the delay is admitted.
  pub wait_over : (admit t' (now +ℤ pos d)).1 ≡ ok allow
  unfolding admit_live
  wait_over =
      let (same, w) = IsWaiting-of_admit t t' now d fits told in
      let room : length (pruned t (now +ℤ pos d)).admitted_at_ms < length t.admitted_at_ms =
        drop_expired-first _ w.first t.admitted_at_ms w.is_front
          (omega (int_laws, first_lies t now d d window_pos window_i64 w (omega arith))) in
      let over : (admit t (now +ℤ pos d)).1 ≡ ok allow =
        ap (λ p. p.1) (admit_later t now d d window_pos window_i64 w (omega arith))
        ∙ ground arith in
      subst (λ u. (admit u (now +ℤ pos d)).1 ≡ ok allow) (sym same) over
