-- ===== src/Services/Watchdog/Rules.antt =====
-- Rules for what holds after a step of the watchdog: one predicate where it gives a value, another
-- where it fails.
use hypercarry.Base.{◌≡◌, refl, Bool, true, false, Option, none, some, ◌∷◌}
use hypercarry.Base.Outcome.{Outcome, panic, fault, value}
use hypercarry.Services.Policy.{ServiceError}
use hypercarry.Services.Watchdog.World.{
  World, state_saved, M, continue, ◌>>=◌, ◌>>◌, answer, lift, require, save, caught, succeeds,
}

abbrev pub After :
    {A : Type 0} → (A → World → Type 0) → (World → Type 0) → World × Outcome ServiceError A → Type 0
After Q F (w, panic) = F w
After Q F (w, fault e) = F w
After Q F (w, value a) = Q a w

module _ (F : World → Type 0) {B : Type 0} (R : B → World → Type 0) where
  continue-After :
      {A : Type 0} (Q : A → World → Type 0) (m : World × Outcome ServiceError A) (next : A → M B)
      → After Q F m
      → ((a : A) (w : World) → Q a w → After R F (next a w))
      → After R F (continue m next)
  continue-After Q (w, panic) next h k = h
  continue-After Q (w, fault e) next h k = h
  continue-After Q (w, value a) next h k = k a w h

  pub bind-After :
      {A : Type 0} (Q : A → World → Type 0) (m : M A) (next : A → M B) (w : World)
      → After Q F (m w)
      → ((a : A) (w' : World) → Q a w' → After R F (next a w'))
      → After R F ((m >>= next) w)
  bind-After Q m next w h k = continue-After Q (m w) next h k

  pub answer-After :
      {A : Type 0} (o : Option A) (next : A → M B) (w : World)
      → F w
      → ((a : A) → o ≡ some a → After R F (next a w))
      → After R F ((answer o >>= next) w)
  answer-After none next w h k = h
  answer-After (some a) next w h k = k a refl

  pub lift-After :
      {A : Type 0} (o : Outcome ServiceError A) (next : A → M B) (w : World)
      → F w
      → ((a : A) → o ≡ value a → After R F (next a w))
      → After R F ((lift o >>= next) w)
  lift-After panic next w h k = h
  lift-After (fault e) next w h k = h
  lift-After (value a) next w h k = k a refl

  pub require-After :
      (b : Bool) (rest : M B) (w : World)
      → F w
      → (b ≡ true → After R F (rest w))
      → After R F ((require b >> rest) w)
  require-After true rest w h k = k refl
  require-After false rest w h k = h

  pub save-After :
      (b : Bool) (rest : M B) (w : World)
      → F w
      → After R F (rest (record w { trace = state_saved w.state ∷ w.trace }))
      → After R F ((save b >> rest) w)
  save-After true rest w h k = k
  save-After false rest w h k = h

-- A last step.
pub require_last :
    (F : World → Type 0) (Q : Unit {0} → World → Type 0) (b : Bool) (w : World)
    → F w
    → (b ≡ true → Q tt w)
    → After Q F (require b w)
require_last F Q true w h k = k refl
require_last F Q false w h k = h

caught-After :
    (Q : World → Type 0) (m : World × Outcome ServiceError (Unit {0}))
    → After (λ done. Q) Q m
    → After (λ done. Q) Q (caught m)
caught-After Q (w, panic) h = h
caught-After Q (w, fault e) h = h
caught-After Q (w, value tt) h = h

pub succeeds-After :
    (Q : World → Type 0) (m : M (Unit {0})) (w : World)
    → After (λ done. Q) Q (m w)
    → After (λ done. Q) Q (succeeds m w)
succeeds-After Q m w h = caught-After Q (m w) h

-- The failures weaken.
pub weaken-After :
    {A : Type 0} (Q Q' : A → World → Type 0) (F F' : World → Type 0)
    (m : World × Outcome ServiceError A)
    → ((a : A) (w : World) → Q a w → Q' a w)
    → ((w : World) → F w → F' w)
    → After Q F m
    → After Q' F' m
weaken-After Q Q' F F' (w, panic) hq hf h = hf w h
weaken-After Q Q' F F' (w, fault e) hq hf h = hf w h
weaken-After Q Q' F F' (w, value a) hq hf h = hq a w h
