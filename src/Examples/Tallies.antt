-- ===== src/Examples/Tallies.antt =====
-- A small encoding of journal records in place of JSON, for the examples of
-- crates/hypercarry-execution/src/journal.rs: a line of as many letters `a` as the sequence number,
-- and a `b`.
use hypercarry.Base.{
  ℕ, zero, suc, ◌<◌, ◌≡◌, refl, sym, ap, Bool, true, false, ◌&&◌, Option, none, some, [], ◌∷◌, ◌++◌,
  ◌==◌, is_empty, arith, if◌then◌else◌,
}
use hypercarry.Base.Int.{pos, eqb_ℤ}
use hypercarry.Base.Text.{Text, codes, text_eq, text_eq_sound, is_blank, has_char, is_whitespace}
use hypercarry.Decimal.Fixed.{Fixed, fixed}
use hypercarry.Execution.Journal.{JournalEventKind, risk_allowed, JournalEvent, JsonCodec}
use hypercarry.Execution.Journal.Roundtrip.{IsFaithful}
use hypercarry.Execution.Journal.Torn.{RefusesTwo}

abbrev pub allowed_at : ℕ → JournalEvent Fixed
allowed_at n = record {
  schema_version = 1;
  sequence = n;
  recorded_at_ms = pos 5;
  correlation_id = codes "order-1";
  event = risk_allowed;
}

abbrev pub tally : ℕ → Text
tally zero = b'b' ∷ []
tally (suc n) = b'a' ∷ tally n

abbrev pub is_risk_allowed : JournalEventKind Fixed → Bool
is_risk_allowed risk_allowed = true
is_risk_allowed _ = false

abbrev pub encode_tally : JournalEvent Fixed → Option Text
encode_tally r =
    if (r.schema_version == 1)
      && eqb_ℤ r.recorded_at_ms (pos 5)
      && text_eq r.correlation_id (codes "order-1")
      && is_risk_allowed r.event
    then some (tally r.sequence)
    else none

abbrev pub next_of : Option ℕ → Option ℕ
next_of none = none
next_of (some n) = some (suc n)

abbrev pub count_tally : Text → Option ℕ
count_tally [] = none
count_tally (c ∷ cs) =
    let more = count_tally cs in
    if c == b'b'
    then (if is_empty cs then some 0 else none)
    else if c == b'a'
    then next_of more
    else none

abbrev pub decode_tally : Text → Option (JournalEvent Fixed)
decode_tally text = elim (count_tally text) [ none ↦ none | some n ↦ some (allowed_at n) ]

abbrev pub tallies : JsonCodec Fixed
tallies = record { encode = encode_tally; decode = decode_tally }

count_tally_lem : (k : ℕ) → count_tally (tally k) ≡ some k
count_tally_lem zero = refl
count_tally_lem (suc k) = ap next_of (count_tally_lem k)

count_two : (k m : ℕ) → count_tally (tally k ++ tally m) ≡ none
count_two zero zero = refl
count_two zero (suc m) = refl
count_two (suc k) m = ap next_of (count_two k m)

encode_tally_lem :
    (r : JournalEvent Fixed) (text : Text)
    → encode_tally r ≡ some text
    → (r ≡ allowed_at r.sequence) × (text ≡ tally r.sequence)
encode_tally_lem r text h = ground (arith, text_eq_sound r.correlation_id (codes "order-1"))

tally_chars : (c k : ℕ) → c < 97 → has_char c (tally k) ≡ false
unfolding has_char
tally_chars c zero h = ground arith
tally_chars c (suc k) h = ground (arith, tally_chars c k h)

tally_full : (k : ℕ) → is_blank (tally k) ≡ false
unfolding is_blank is_whitespace
tally_full zero = refl
tally_full (suc k) = refl

pub tallies-IsFaithful : IsFaithful tallies
tallies-IsFaithful = record {
  reads_back = λ r text h.
      rw (encode_tally_lem r text h).1 (
        rw (decode_tally, count_tally_lem r.sequence)
          (ap some (sym (encode_tally_lem r text h).0)));
  one_line = λ r text h. record {
    no_feed = rw (encode_tally_lem r text h).1 (tally_chars 10 r.sequence (omega arith));
    no_return = rw (encode_tally_lem r text h).1 (tally_chars 13 r.sequence (omega arith));
  };
  not_blank = λ r text h. rw (encode_tally_lem r text h).1 (tally_full r.sequence);
}

pub tallies_refuse_two : RefusesTwo tallies
tallies_refuse_two = λ r s text other h k.
    rw ((encode_tally_lem r text h).1, (encode_tally_lem s other k).1)
      (rw (decode_tally, count_two r.sequence s.sequence) refl)
