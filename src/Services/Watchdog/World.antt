-- ===== src/Services/Watchdog/World.antt =====
-- What the watchdog keeps and does: its state, and the trace of its writes and submissions, the latest
-- first. A step is a function on the two that may fail.
use hypercarry.Base.{ℕ, Bool, Option, none, some, List, ◌∷◌, true, false}
use hypercarry.Base.Text.{Text}
use hypercarry.Base.Outcome.{Outcome, panic, fault, value}
use hypercarry.Services.Policy.{ServiceError, refused}
use hypercarry.Services.Signing.{SigningRequest}

pub record WatchdogState : Type 0 where
  pub binding : Text
  pub last_nonce : ℕ
  pub armed_until_ms : Option ℕ
  pub emergency : Bool
  pub flat : Bool

pub data Effect : Type 0 where
  state_saved : WatchdogState → Effect
  kill_switch_written : Effect
  heartbeat_removed : Effect
  heartbeat_written : (now armed_until_ms : ℕ) → Effect
  submitted : SigningRequest → Effect

pub record World : Type 0 where
  pub state : WatchdogState
  pub trace : List Effect

abbrev pub M : Type 0 → Type 0
M A = World → World × Outcome ServiceError A

abbrev pub continue :
    {A B : Type 0} → World × Outcome ServiceError A → (A → M B) → World × Outcome ServiceError B
continue (w, panic) next = (w, panic)
continue (w, fault e) next = (w, fault e)
continue (w, value a) next = next a w

infixl 5 ◌>>=◌ ◌>>◌
abbrev pub ◌>>=◌ : {A B : Type 0} → M A → (A → M B) → M B
◌>>=◌ m next w = continue (m w) next

abbrev pub ◌>>◌ : {B : Type 0} → M (Unit {0}) → M B → M B
m >> rest = m >>= λ done. rest

abbrev pub pure : {A : Type 0} → A → M A
pure a w = (w, value a)

abbrev pub lift : {A : Type 0} → Outcome ServiceError A → M A
lift o w = (w, o)

-- An answer of the clock, the files or the venue, with `?`.
abbrev pub answer : {A : Type 0} → Option A → M A
answer none w = (w, fault refused)
answer (some a) w = (w, value a)

abbrev pub require : Bool → M (Unit {0})
require true w = (w, value tt)
require false w = (w, fault refused)

abbrev pub emit : Effect → M (Unit {0})
emit e w = (record w { trace = e ∷ w.trace }, value tt)

abbrev pub get_state : M WatchdogState
get_state w = (w, value w.state)

abbrev pub put_state : WatchdogState → M (Unit {0})
put_state s w = (record w { state = s }, value tt)

-- `write_private` of the state; it fails where the answer is false.
abbrev pub save : Bool → M (Unit {0})
save true w = (record w { trace = state_saved w.state ∷ w.trace }, value tt)
save false w = (w, fault refused)

-- `result.is_ok()`: a failure is caught, and what it did stays.
abbrev pub caught : World × Outcome ServiceError (Unit {0}) → World × Outcome ServiceError Bool
caught (w, panic) = (w, panic)
caught (w, fault e) = (w, value false)
caught (w, value done) = (w, value true)

abbrev pub succeeds : M (Unit {0}) → M Bool
succeeds m w = caught (m w)
