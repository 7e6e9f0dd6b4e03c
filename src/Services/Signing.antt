-- ===== src/Services/Signing.antt =====
-- crates/hypercarry-mainnet-services/src/policy.rs: the actions that the mainnet signer may sign. The
-- hash function SHA-256 and the parser of decimals are parameters.
pub mod Reviewed
use hypercarry.Base.{
  ℕ, ◌-◌, ◌≡◌, Bool, true, false, not, ◌&&◌, Option, none, some, List, ltb, leb, ◌==◌,
  if◌then◌else◌,
}
use hypercarry.Base.Int.{saturating_add_u64, abs_diff}
use hypercarry.Base.Text.{Text, codes, text_eq}
use hypercarry.Base.Json.{
  Json, boolean, unsigned, text, array, object, Elements, nil, cons, Members, end, member, json_eq,
  get, as_str, as_u64, as_array,
}
use hypercarry.Base.Outcome.{Outcome, panic, fault, value, ◌>>=◌, ◌>>◌, ensure, or_fault}
use hypercarry.Decimal.{Decimal}
use hypercarry.Execution.Error
use hypercarry.Execution.Error.{Result}
use hypercarry.Execution.Identity.{ClientOrderId, derive, to_string}
use hypercarry.Execution.Journal.{ExecutionNetwork, testnet_network, mainnet_network}
use hypercarry.Execution.Model.{Side, buy, sell}
use hypercarry.Services.Policy.{ServiceError, refused, RuntimeConfig, ServicePolicy, both_multiples}

pub record SigningRequest : Type 0 where
  pub schema_version : ℕ
  pub network : ExecutionNetwork
  pub key_id : Text
  pub signer_address : Text
  pub nonce : ℕ
  pub expires_after : ℕ
  pub action : Json

pub data Purpose : Type 0 where
  placement cancel schedule flatten : Purpose

abbrev pub is_mainnet : ExecutionNetwork → Bool
is_mainnet mainnet_network = true
is_mainnet testnet_network = false

abbrev pub is_buy : Side → Bool
is_buy buy = true
is_buy sell = false

-- `?` on a result of the execution crate.
abbrev pub propagate {ℓ} : {A : Type ℓ} → Result A → Outcome ServiceError A
propagate (Error.ok a) = value a
propagate (Error.err e) = fault refused
propagate Error.panic = panic

-- `{"limit":{"tif":…}}`
abbrev pub time_in_force : Text → Json
time_in_force tif =
    object (member (codes "limit") (object (member (codes "tif") (text tif) end)) end)

-- `{"grouping":"na","orders":[…],"type":"order"}`
abbrev pub order_action : Members → Json
order_action order = object (
    member (codes "grouping") (text (codes "na")) (
      member (codes "orders") (array (cons (object order) nil))
        (member (codes "type") (text (codes "order")) end)))

-- `{"time":…,"type":"scheduleCancel"}`
unfoldable pub schedule_action : ℕ → Json
schedule_action at = object (
    member (codes "time") (unsigned at) (member (codes "type") (text (codes "scheduleCancel")) end))

-- `action.get("type").and_then(as_str) == Some("scheduleCancel")`
unfoldable pub is_schedule : Json → Bool
is_schedule action = elim (get action (codes "type")) [
  | none ↦ false
  | some found ↦ elim (as_str found) [
    | none ↦ false
    | some kind ↦ text_eq kind (codes "scheduleCancel")
  ]
]

abbrev first_element : Elements → Json
first_element nil = Json.null
first_element (cons x xs) = x

abbrev is_single : Elements → Bool
is_single (cons x nil) = true
is_single _ = false

-- The window of a signature: its nonce is near the time, and its expiry ahead and within the limit.
abbrev window_open : SigningRequest → ℕ → ℕ → Bool
window_open q ttl now =
    leb (abs_diff q.nonce now) 5000
    && ltb now q.expires_after
    && ltb q.nonce q.expires_after
    && leb (q.expires_after - q.nonce) ttl

module _ {Num : Type 0} ⦃d : Decimal Num⦄ where
  abbrev pub plain : Num → Text
  plain x = d.display (d.normalize x)

  abbrev pub placement_order : RuntimeConfig Num → ClientOrderId → Members
  placement_order r id = member (codes "a") (unsigned r.asset_id) (
      member (codes "b") (boolean (is_buy r.order.side)) (
        member (codes "c") (text (to_string id)) (
          member (codes "p") (text (plain r.order.limit_price)) (
            member (codes "r") (boolean false) (
              member (codes "s") (text (plain r.order.quantity))
                (member (codes "t") (time_in_force (codes "Gtc")) end))))))

  unfoldable pub exact_order : (List ℕ → List ℕ) → RuntimeConfig Num → Outcome ServiceError Json
  exact_order sha256 r = do
    id ← propagate (derive sha256 r.order)
    value (order_action (placement_order r id))

  -- `{"cancels":[{"asset":…,"cloid":…}],"type":"cancelByCloid"}`
  unfoldable pub cancel_action : (List ℕ → List ℕ) → RuntimeConfig Num → Outcome ServiceError Json
  cancel_action sha256 r = do
    id ← propagate (derive sha256 r.order)
    value (
        object (
          member (codes "cancels")
            (array (
              cons
                (object (
                  member (codes "asset") (unsigned r.asset_id)
                    (member (codes "cloid") (text (to_string id)) end)))
                nil))
            (member (codes "type") (text (codes "cancelByCloid")) end)))

  abbrev pub flatten_order : RuntimeConfig Num → Num → Num → Members
  flatten_order r price size = member (codes "a") (unsigned r.asset_id) (
      member (codes "b") (boolean (not (is_buy r.order.side))) (
        member (codes "p") (text (plain price)) (
          member (codes "r") (boolean true) (
            member (codes "s") (text (plain size))
              (member (codes "t") (time_in_force (codes "Ioc")) end)))))

  unfoldable pub flatten_action : RuntimeConfig Num → Num → Num → Outcome ServiceError Json
  flatten_action r price size = do
    ensure (d.lt d.zero size && d.le size r.order.quantity) refused
    aligned ← both_multiples size r.metadata.size_step price r.metadata.price_tick
    ensure aligned refused
    value (order_action (flatten_order r price size))

  -- The part for a scheduled cancellation.
  unfoldable pub validate_schedule :
      SigningRequest → ServicePolicy Num → ℕ → Outcome ServiceError Purpose
  validate_schedule q p now = do
    found ← or_fault (get q.action (codes "time")) refused
    at ← or_fault (as_u64 found) refused
    ensure (json_eq q.action (schedule_action at)) refused
    ensure
        (leb (saturating_add_u64 now 5000) at
          && leb at (saturating_add_u64 now p.cancel_horizon_ms))
        refused
    value schedule

  module _ (from_str : Text → Option Num) where
    -- A decimal in a text member of an order.
    abbrev decimal_member : Json → Text → Outcome ServiceError Num
    decimal_member order key = do
      member_value ← or_fault (get order key) refused
      digits ← or_fault (as_str member_value) refused
      or_fault (from_str digits) refused

    -- The last part of `validate_request`: an emergency order.
    unfoldable pub validate_flatten :
        SigningRequest → RuntimeConfig Num → ServicePolicy Num → Outcome ServiceError Purpose
    validate_flatten q r p = do
      found ← or_fault (get q.action (codes "orders")) refused
      orders ← or_fault (as_array found) refused
      ensure (is_single orders) refused
      price ← decimal_member (first_element orders) (codes "p")
      size ← decimal_member (first_element orders) (codes "s")
      expected ← flatten_action r price size
      ensure (json_eq q.action expected) refused
      ensure (d.le p.emergency_min_price price && d.le price p.emergency_max_price) refused
      value flatten

    unfoldable pub validate_request :
        (List ℕ → List ℕ)
        → SigningRequest
        → RuntimeConfig Num
        → ServicePolicy Num
        → ℕ
        → Outcome ServiceError Purpose
    validate_request sha256 q r p now = do
      ensure ((q.schema_version == 1) && is_mainnet q.network) refused
      ensure (text_eq q.key_id r.signer_alias && text_eq q.signer_address r.signer_address) refused
      ensure (window_open q r.action_ttl_ms now) refused
      exact ← exact_order sha256 r
      let emergency =
          if is_schedule q.action then validate_schedule q p now else validate_flatten q r p
      let otherwise = cancel_action sha256 r >>= λ cancelling.
          if json_eq q.action cancelling then value cancel else emergency
      if json_eq q.action exact then value placement else otherwise
