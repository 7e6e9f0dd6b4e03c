-- ===== src/Execution/Simulator/Frames.antt =====
-- Steps of the replay in crates/hypercarry-execution/src/simulator.rs that the proofs share.
use hypercarry.Base.{
  ◌≡◌, refl, ◌⊎◌, inl, inr, Bool, true, false, not, ◌||◌, List, [], ◌∷◌, arith, if◌then◌else◌,
}
use hypercarry.Decimal.{Decimal}
use hypercarry.Execution.Error.{Result, ok, >>=-eq-ok, ok-injective}
use hypercarry.Execution.Simulator.{MarketFrame, validate_frame, validate_frames}
use hypercarry.Execution.Simulator.Report.{Member, here, there}

pub if_split {ℓ} :
    {A : Type ℓ} (b : Bool) (x : A) (k : Result A) {o : A}
    → (if b then ok x else k) ≡ ok o
    → ((b ≡ true) × (x ≡ o)) ⊎ ((b ≡ false) × (k ≡ ok o))
if_split true x k h = inl (refl, ok-injective _ _ h)
if_split false x k h = inr (refl, h)

pub both_false : (a b : Bool) → not a || b ≡ false → (a ≡ true) × (b ≡ false)
both_false a b h = ground arith

module _ {Num : Type 0} ⦃d : Decimal Num⦄ where
  pub frame_valid :
      (frames : List (MarketFrame Num)) {f : MarketFrame Num}
      → validate_frames frames ≡ ok tt
      → Member f frames
      → validate_frame f ≡ ok tt
  unfolding validate_frames
  frame_valid [] v m = elim m [ ]
  frame_valid (x ∷ frames) v here = (>>=-eq-ok (validate_frame x) _ v).1
  frame_valid (x ∷ frames) v (there m) =
      let (_, e, rest) = >>=-eq-ok (validate_frame x) (λ u. validate_frames frames) v in
      frame_valid frames rest m
