-- ===== src/Execution/DryRun/Memory.antt =====
-- The memory journal of crates/hypercarry-execution/src/journal.rs meets the interface of the dry run.
use hypercarry.Base.{◌≡◌, [], ◌∷◌, ◌++◌, arith}
use hypercarry.Base.Int.{ℤ}
use hypercarry.Base.Text.{Text}
use hypercarry.Decimal.{Decimal}
use hypercarry.Execution.Error.{ok}
use hypercarry.Execution.Journal.{JournalEventKind, JournalEvent, InMemoryJournal, append_memory}
use hypercarry.Execution.DryRun.{Says, Journal}

module _ {Num : Type 0} ⦃d : Decimal Num⦄ where
  pub append_memory_ok :
      (j j' : InMemoryJournal Num) (at_ms : ℤ) (id : Text) (event : JournalEventKind Num)
      (r : JournalEvent Num)
      → append_memory j at_ms id event ≡ (j', ok r)
      → (j'.events ≡ j.events ++ r ∷ []) × Says r at_ms id event
  unfolding append_memory
  append_memory_ok j j' at_ms id event r h = ground arith

  instance unfoldable pub memory : Journal (InMemoryJournal Num) Num
  unfolding append_memory
  memory = record { events = λ j. j.events; append = append_memory; append_ok = append_memory_ok }
