-- ===== src/Execution/Reliability/Window.antt =====
-- Runs of the throttle of crates/hypercarry-execution/src/reliability.rs, and the requests that it
-- admits in one window.
use hypercarry.Base.{
  ℕ, ◌+◌, ◌≤◌, ◌<◌, ◌≡◌, refl, sym, ap, subst, ◌∙◌, ◌⊎◌, inl, inr, false, ◌||◌, some, List, [], ◌∷◌,
  ◌++◌, ltb, ltb→lt, length, length-append, if◌then◌else◌, arith, Bool-cases, Option-cases,
}
use hypercarry.Base.Int.{ℤ, pos, ltb_ℤ, ◌-ℤ◌, ◌≤ℤ◌, checked_sub, int_laws}
use hypercarry.Execution.Error.{Result, ok, err, reliability}
use hypercarry.Execution.Reliability.{
  ThrottleDecision, allow, RequestThrottle, back, precedes, drop_expired, retry_delay, admit_live,
  admit, new_throttle,
}

-- The requests later than `c`.
unfoldable pub count_after : ℤ → List ℤ → ℕ
count_after c [] = 0
count_after c (x ∷ xs) = (if ltb_ℤ c x then 1 else 0) + count_after c xs

count_after-append :
    (c : ℤ) (xs ys : List ℤ) → count_after c (xs ++ ys) ≡ count_after c xs + count_after c ys
unfolding count_after
count_after-append c [] ys = omega arith
count_after-append c (x ∷ xs) ys = omega (arith, count_after-append c xs ys)

count_after-le-length : (c : ℤ) (xs : List ℤ) → count_after c xs ≤ length xs
unfolding count_after
count_after-le-length c [] = omega arith
count_after-le-length c (x ∷ xs) = ground (arith, count_after-le-length c xs)

count_after-drop_expired :
    (c cutoff : ℤ) (xs : List ℤ)
    → cutoff ≤ℤ c
    → count_after c (drop_expired cutoff xs) ≡ count_after c xs
unfolding count_after drop_expired
count_after-drop_expired c cutoff [] h = refl
count_after-drop_expired c cutoff (x ∷ xs) h =
    ground (arith, count_after-drop_expired c cutoff xs h)

pub length-drop_expired : (cutoff : ℤ) (xs : List ℤ) → length (drop_expired cutoff xs) ≤ length xs
unfolding drop_expired
length-drop_expired cutoff [] = omega arith
length-drop_expired cutoff (x ∷ xs) = ground (arith, length-drop_expired cutoff xs)

back-append : (xs : List ℤ) (x : ℤ) → back (xs ++ x ∷ []) ≡ some x
back-append [] x = refl
back-append (y ∷ []) x = refl
back-append (y ∷ z ∷ r) x = back-append (z ∷ r) x

-- The times of the requests that were admitted, the latest first, beside the throttle.
pub record Trace : Type 0 where
  pub throttle : RequestThrottle
  pub granted : List ℤ

abbrev grant : Result ThrottleDecision → ℤ → List ℤ → List ℤ
grant (ok allow) now granted = now ∷ granted
grant _ now granted = granted

unfoldable pub call : Trace → ℤ → Trace
call s now =
    let (t, r) = admit s.throttle now in record { throttle = t; granted = grant r now s.granted }

unfoldable pub calls : Trace → List ℤ → Trace
calls s [] = s
calls s (now ∷ times) = calls (call s now) times

-- Each admitted request and those admitted before it, within the window that ends with it, are at
-- most `k`.
abbrev pub Limited : ℕ → ℤ → List ℤ → Type 0
Limited k w [] = Unit {0}
Limited k w (x ∷ earlier) = (count_after (x -ℤ w) (x ∷ earlier) ≤ k) × Limited k w earlier

-- The deque holds every admitted request that can still count.
abbrev Tracks : ℤ → List ℤ → List ℤ → Type 0
Tracks w deque [] = deque ≡ []
Tracks w deque (x ∷ earlier) =
    (back deque ≡ some x)
    × ((c : ℤ) → x -ℤ w ≤ℤ c → count_after c (x ∷ earlier) ≡ count_after c deque)

record IsSound (k : ℕ) (w : ℤ) (s : Trace) : Type 0 where
  same_limit : s.throttle.max_requests ≡ k
  same_window : s.throttle.window_ms ≡ w
  within : length s.throttle.admitted_at_ms ≤ k
  tracks : Tracks w s.throttle.admitted_at_ms s.granted
  limited : Limited k w s.granted

drop_expired_or_same :
    (cutoff : ℤ) (xs : List ℤ)
    → (drop_expired cutoff xs ≡ xs) ⊎ (length (drop_expired cutoff xs) < length xs)
unfolding drop_expired
drop_expired_or_same cutoff [] = inl refl
drop_expired_or_same cutoff (x ∷ xs) = ground (arith, length-drop_expired cutoff xs)

pub checked_sub_some : (a b c : ℤ) → checked_sub a b ≡ some c → c ≡ a -ℤ b
unfolding checked_sub
checked_sub_some a b c h = ground arith

grant-retry_delay :
    (t : RequestThrottle) (now : ℤ) (g : List ℤ) → grant (retry_delay t now) now g ≡ g
unfolding retry_delay
grant-retry_delay t now g = ground arith

-- The throttle without the entries that have left the window.
abbrev pub pruned : RequestThrottle → ℤ → RequestThrottle
pruned t now = record t { admitted_at_ms = drop_expired (now -ℤ t.window_ms) t.admitted_at_ms }

-- The three ways through `admit`.
pub data Admits (t : RequestThrottle) (now : ℤ) (r : RequestThrottle × Result ThrottleDecision)
    : Type 0 where
  refused : r ≡ (t, err reliability) → Admits t now r
  admitted :
      precedes now (back t.admitted_at_ms) ≡ false
      → length (pruned t now).admitted_at_ms < t.max_requests
      → r ≡ (record t { admitted_at_ms = (pruned t now).admitted_at_ms ++ now ∷ [] }, ok allow)
      → Admits t now r
  delayed :
      t.max_requests ≤ length (pruned t now).admitted_at_ms
      → r ≡ (pruned t now, retry_delay (pruned t now) now)
      → Admits t now r

admit_live-Admits :
    (t : RequestThrottle) (now : ℤ)
    → precedes now (back t.admitted_at_ms) ≡ false
    → Admits t now (admit_live (pruned t now) now)
unfolding admit_live
admit_live-Admits t now p =
    elim (Bool-cases (ltb (length (pruned t now).admitted_at_ms) t.max_requests)) [
      | inl room ↦ admitted p (ltb→lt _ _ room) (rw room)
      | inr full ↦ delayed (ground arith) (rw full)
    ]

pub admit-Admits : (t : RequestThrottle) (now : ℤ) → Admits t now (admit t now)
unfolding admit
admit-Admits t now = elim (Bool-cases (ltb_ℤ now (pos 0) || precedes now (back t.admitted_at_ms))) [
  | inl bad ↦ refused (rw bad)
  | inr good ↦ elim (Option-cases (checked_sub now t.window_ms)) [
    | inl overflow ↦ refused (rw (good, overflow))
    | inr (cutoff, e) ↦
        rw (good, e, checked_sub_some now t.window_ms cutoff e)
          (admit_live-Admits t now (ground arith))
  ]
]

module _ (k : ℕ) (w : ℤ) where
  later_cutoff :
      (now x c : ℤ) (deque : List ℤ)
      → back deque ≡ some x
      → precedes now (back deque) ≡ false
      → now -ℤ w ≤ℤ c
      → x -ℤ w ≤ℤ c
  later_cutoff now x c deque e p hc = omega (int_laws, not_before)
    where
      not_before : x ≤ℤ now
      not_before = ground arith

  -- A request that the deque had room for.
  Tracks-grant :
      (now : ℤ) (deque g : List ℤ)
      → Tracks w deque g
      → precedes now (back deque) ≡ false
      → Tracks w (drop_expired (now -ℤ w) deque ++ now ∷ []) (now ∷ g)
  unfolding count_after drop_expired
  Tracks-grant now deque [] h p = rw h (refl, λ c hc. refl)
  Tracks-grant now deque (x ∷ g) h p = (
    back-append (drop_expired (now -ℤ w) deque) now,
    λ c hc. omega (
      arith,
      count_after-append c (drop_expired (now -ℤ w) deque) (now ∷ []),
      count_after-drop_expired c (now -ℤ w) deque hc,
      h.1 c (later_cutoff now x c deque h.0 p hc),
    ),
  )

  pub drop_expired-full :
      (now : ℤ) (deque : List ℤ)
      → length deque ≤ k
      → k ≤ length (drop_expired (now -ℤ w) deque)
      → drop_expired (now -ℤ w) deque ≡ deque
  drop_expired-full now deque h p = elim (drop_expired_or_same (now -ℤ w) deque) [
    | inl e ↦ e
    | inr l ↦ absurd (omega arith)
  ]

  -- The latest request and the earlier ones of its window are in the deque.
  Limited-grant :
      (now : ℤ) (deque g : List ℤ)
      → Tracks w deque (now ∷ g)
      → length deque ≤ k
      → Limited k w g
      → Limited k w (now ∷ g)
  Limited-grant now deque g t h l =
      (omega (arith, t.1 (now -ℤ w) (omega arith), count_after-le-length (now -ℤ w) deque), l)

  module _ (s : Trace) (now : ℤ) (h : IsSound k w s) where
    -- The window of the throttle is `w`.
    live_at :
        drop_expired (now -ℤ w) s.throttle.admitted_at_ms ≡ (pruned s.throttle now).admitted_at_ms
    live_at = ap (λ v. drop_expired (now -ℤ v) s.throttle.admitted_at_ms) (sym h.same_window)

    grant-IsSound :
        precedes now (back s.throttle.admitted_at_ms) ≡ false
        → length (pruned s.throttle now).admitted_at_ms < s.throttle.max_requests
        → IsSound k w (record {
          throttle = record s.throttle {
            admitted_at_ms = (pruned s.throttle now).admitted_at_ms ++ now ∷ [];
          };
          granted = now ∷ s.granted;
        })
    grant-IsSound p room = record {
      same_limit = h.same_limit;
      same_window = h.same_window;
      within = size;
      tracks = held;
      limited = Limited-grant now _ s.granted held size h.limited;
    }
      where
        size : length ((pruned s.throttle now).admitted_at_ms ++ now ∷ []) ≤ k
        size =
            omega
              (arith, h.same_limit, length-append (pruned s.throttle now).admitted_at_ms (now ∷ []))

        held : Tracks w ((pruned s.throttle now).admitted_at_ms ++ now ∷ []) (now ∷ s.granted)
        held =
            subst (λ live. Tracks w (live ++ now ∷ []) (now ∷ s.granted)) live_at
              (Tracks-grant now s.throttle.admitted_at_ms s.granted h.tracks p)

    delay-IsSound :
        s.throttle.max_requests ≤ length (pruned s.throttle now).admitted_at_ms
        → IsSound k w (record { throttle = pruned s.throttle now; granted = s.granted })
    delay-IsSound full =
        let same =
          sym live_at
          ∙ drop_expired-full now s.throttle.admitted_at_ms h.within
              (subst (λ xs. k ≤ length xs) (sym live_at) (omega (arith, h.same_limit))) in
        record {
          same_limit = h.same_limit;
          same_window = h.same_window;
          within = subst (λ xs. length xs ≤ k) (sym same) h.within;
          tracks = subst (λ xs. Tracks w xs s.granted) (sym same) h.tracks;
          limited = h.limited;
        }

    call-IsSound : IsSound k w (call s now)
    unfolding call
    call-IsSound = go (admit s.throttle now) (admit-Admits s.throttle now)
      where
        go :
            (r : RequestThrottle × Result ThrottleDecision)
            → Admits s.throttle now r
            → IsSound k w (record { throttle = r.0; granted = grant r.1 now s.granted })
        go r (refused e) = rw e h
        go r (admitted p room e) = rw e (grant-IsSound p room)
        go r (delayed full e) =
            rw e (rw (grant-retry_delay (pruned s.throttle now) now s.granted) (delay-IsSound full))

  calls-IsSound : (s : Trace) (times : List ℤ) → IsSound k w s → IsSound k w (calls s times)
  unfolding calls
  calls-IsSound s [] h = h
  calls-IsSound s (now ∷ times) h = calls-IsSound (call s now) times (call-IsSound s now h)

-- A fresh throttle, called at any times in any order, admits at most `max_requests` requests in any
-- window that ends with an admitted request: of each admitted request and those admitted before
-- it, at most that many are later than its time less `window_ms`.
pub calls-Limited :
    (k : ℕ) (w : ℤ) (t : RequestThrottle) (times : List ℤ)
    → new_throttle k w ≡ ok t
    → Limited k w (calls (record { throttle = t; granted = [] }) times).granted
unfolding new_throttle
calls-Limited k w t times e = (calls-IsSound k w _ times fresh).limited
  where
    fresh : IsSound k w (record { throttle = t; granted = [] })
    fresh = ground arith
