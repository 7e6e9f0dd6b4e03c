-- ===== src/Storage.antt =====
-- The crate crates/hypercarry-storage: the rows of settled_funding.rs, and `merge_records` of
-- dataset.rs.
pub mod Kept
pub mod Merged
pub mod Dataset
pub mod Commit
pub mod Durable
use hypercarry.Base.{
  arith, ◌≡◌, refl, sym, ap, ◌∙◌, Bool, not, ◌||◌, Option, none, some, List, [], ◌∷◌, ◌++◌, ℕ,
  if◌then◌else◌,
}
use hypercarry.Base.Int.{ℤ}
use Prim.Native.Nat.{compare, Ordering}
use hypercarry.Base.Text.{Text, codes}
use hypercarry.Base.Outcome.{Outcome, fault, value, ◌>>=◌}
use hypercarry.Base.Compare.{
  compare_ℤ, compare_text, compare_pair, is_lt, IsOrder, compare_nat-IsOrder, compare_int-IsOrder,
  compare_text-IsOrder, compare_pair-IsOrder, compare_by-IsOrder,
}
use hypercarry.Base.Ordered.{Entries, lookup, insert, values}
use hypercarry.Decimal.{Decimal}

-- `Network` of crates/hypercarry-core/src/info.rs
pub data Network : Type 0 where
  mainnet testnet : Network

abbrev pub network_as_str : Network → Text
network_as_str mainnet = codes "mainnet"
network_as_str testnet = codes "testnet"

pub data SourceEndpointClass : Type 0 where
  official development : SourceEndpointClass

pub record RequestWindow : Type 0 where
  pub start : ℤ
  pub end : ℤ

pub record IngestionProvenance : Type 0 where
  pub source_endpoint_class : SourceEndpointClass
  pub ingestion_time : ℤ
  pub request_window : RequestWindow
  pub software_version : Text

pub record SettledFundingIdentity : Type 0 where
  pub network : Network
  pub venue : Text
  pub coin : Text
  pub settlement_time : ℤ

pub record SettledFundingRecord (Num : Type 0) : Type 0 where
  pub schema_version : ℕ
  pub identity : SettledFundingIdentity
  pub funding_rate : Num
  pub premium : Num
  pub provenance : IngestionProvenance

-- `DatasetError`, without the paths and the sources of an error.
pub data DatasetError : Type 0 where
  io parquet json contract invalid_parquet invalid_checkpoint : DatasetError
  conflicting_duplicate : SettledFundingIdentity → DatasetError

-- The tuple that `Ord for SettledFundingIdentity` compares.
abbrev pub identity_key : SettledFundingIdentity → Text × (Text × (Text × ℤ))
identity_key i = (network_as_str i.network, (i.venue, (i.coin, i.settlement_time)))

unfoldable pub compare_identity : SettledFundingIdentity → SettledFundingIdentity → Ordering
compare_identity a b =
    compare_pair compare_text (compare_pair compare_text (compare_pair compare_text compare_ℤ))
      (identity_key a) (identity_key b)

abbrev pub endpoint_rank : SourceEndpointClass → ℕ
endpoint_rank official = 0
endpoint_rank development = 1

abbrev pub provenance_key : IngestionProvenance → ℤ × (ℕ × (Text × (ℤ × ℤ)))
provenance_key p = (
  p.ingestion_time,
  (
    endpoint_rank p.source_endpoint_class,
    (p.software_version, (p.request_window.start, p.request_window.end)),
  ),
)

-- `Ord::cmp` of the keys
unfoldable pub compare_provenance : IngestionProvenance → IngestionProvenance → Ordering
compare_provenance a b =
    compare_pair compare_ℤ
      (compare_pair compare (compare_pair compare_text (compare_pair compare_ℤ compare_ℤ)))
      (provenance_key a) (provenance_key b)

abbrev pub Rows : Type 0 → Type 0
Rows Num = Entries SettledFundingIdentity (SettledFundingRecord Num)

module _ {Num : Type 0} ⦃d : Decimal Num⦄ where
  -- The `match` on the row of the record's identity.
  unfoldable pub merge_row :
      SettledFundingRecord Num
      → Option (SettledFundingRecord Num)
      → Rows Num
      → Outcome DatasetError (Rows Num)
  unfolding insert compare_identity compare_provenance
  merge_row row none rows = value (insert compare_identity row.identity row rows)
  merge_row row (some current) rows =
      if not (d.eq current.funding_rate row.funding_rate) || not (d.eq current.premium row.premium)
      then fault (conflicting_duplicate row.identity)
      else if is_lt (compare_provenance row.provenance current.provenance)
      then value (insert compare_identity row.identity row rows)
      else value rows

  -- The loop over the records.
  unfoldable pub merge_all :
      List (SettledFundingRecord Num) → Rows Num → Outcome DatasetError (Rows Num)
  unfolding merge_row lookup compare_identity
  merge_all [] rows = value rows
  merge_all (row ∷ rest) rows =
      merge_row row (lookup compare_identity row.identity rows) rows >>= λ rows'.
      merge_all rest rows'

  unfoldable pub merge_records :
      List (SettledFundingRecord Num)
      → List (SettledFundingRecord Num)
      → Outcome DatasetError (List (SettledFundingRecord Num))
  unfolding merge_all
  merge_records existing incoming =
      merge_all (existing ++ incoming) [] >>= λ rows. value (values rows)

network_as_str-injective : (a b : Network) → network_as_str a ≡ network_as_str b → a ≡ b
network_as_str-injective a b h = ground arith

endpoint_rank-injective : (a b : SourceEndpointClass) → endpoint_rank a ≡ endpoint_rank b → a ≡ b
endpoint_rank-injective a b h = ground arith

identity_key-injective : (a b : SettledFundingIdentity) → identity_key a ≡ identity_key b → a ≡ b
identity_key-injective a b h = λ i. record {
  network = network_as_str-injective a.network b.network (λ j. (h j).0) i;
  venue = (h i).1.0;
  coin = (h i).1.1.0;
  settlement_time = (h i).1.1.1;
}

provenance_key-injective : (a b : IngestionProvenance) → provenance_key a ≡ provenance_key b → a ≡ b
provenance_key-injective a b h = λ i. record {
  source_endpoint_class =
      endpoint_rank-injective a.source_endpoint_class b.source_endpoint_class (λ j. (h j).1.0) i;
  ingestion_time = (h i).0;
  request_window = record { start = (h i).1.1.1.0; end = (h i).1.1.1.1 };
  software_version = (h i).1.1.0;
}

pub compare_identity-IsOrder : IsOrder compare_identity
unfolding compare_identity
compare_identity-IsOrder = compare_by-IsOrder identity_key identity_key-injective (
    compare_pair-IsOrder compare_text-IsOrder (
      compare_pair-IsOrder compare_text-IsOrder
        (compare_pair-IsOrder compare_text-IsOrder compare_int-IsOrder)))

pub compare_provenance-IsOrder : IsOrder compare_provenance
unfolding compare_provenance
compare_provenance-IsOrder = compare_by-IsOrder provenance_key provenance_key-injective (
    compare_pair-IsOrder compare_int-IsOrder (
      compare_pair-IsOrder compare_nat-IsOrder (
        compare_pair-IsOrder compare_text-IsOrder
          (compare_pair-IsOrder compare_int-IsOrder compare_int-IsOrder))))
