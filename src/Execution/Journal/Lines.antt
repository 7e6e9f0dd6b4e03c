-- ===== src/Execution/Journal/Lines.antt =====
-- The lines of a file as the journal in crates/hypercarry-execution/src/journal.rs writes and reads
-- them.
use hypercarry.Base.{◌≡◌, refl, false, List, [], ◌∷◌, ◌++◌, All, arith}
use mathlib.Core.List.{append_assoc}
use hypercarry.Base.Text.{Text, has_char}
use hypercarry.Execution.Journal.File.{lines}

-- A line without a line feed (10) and a carriage return (13).
pub record IsLine (line : Text) : Type 0 where
  pub no_feed : has_char 10 line ≡ false
  pub no_return : has_char 13 line ≡ false

unfoldable pub join : List Text → Text
join [] = []
join (line ∷ rest) = line ++ (10 ∷ join rest)

pub lines-append :
    (line rest : Text)
    → has_char 10 line ≡ false
    → has_char 13 line ≡ false
    → lines (line ++ (10 ∷ rest)) ≡ line ∷ lines rest
unfolding lines has_char
lines-append [] rest f r = refl
lines-append (c ∷ line) rest f r = ground (arith, lines-append line rest)

pub lines-join : (texts : List Text) → All IsLine texts → lines (join texts) ≡ texts
unfolding join
lines-join [] h = unfold lines in refl
lines-join (line ∷ rest) h =
    ground (arith, lines-append line (join rest) h.0.no_feed h.0.no_return, lines-join rest h.1)

pub join-append :
    (xs : List Text) (line : Text) → join (xs ++ line ∷ []) ≡ join xs ++ (line ++ 10 ∷ [])
unfolding join
join-append [] line = refl
join-append (x ∷ xs) line =
    ground (arith, join-append xs line, append_assoc x (10 ∷ join xs) (line ++ 10 ∷ []))
