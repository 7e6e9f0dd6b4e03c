-- ===== src/Execution/Mainnet.antt =====
-- crates/hypercarry-execution/src/mainnet.rs: the release gate in front of mainnet. This file has the
-- checks of identifiers that its parts share, and the signer check of signing.rs.
pub mod Evidence
pub mod Gate
pub mod Releasable
pub mod Cleared
pub mod Expiry
use hypercarry.Base.{
  ℕ, Bool, true, false, not, ◌&&◌, ◌||◌, List, [], ◌∷◌, ltb, leb, ◌==◌, all, is_empty,
  if◌then◌else◌,
}
use hypercarry.Base.Text.{Text, codes, text_eq, byte_len, is_ascii_alphanumeric, is_ascii_hexdigit}
use hypercarry.Execution.Error.{Result, ok, err, policy, release_gate, ◌>>=◌, ◌>>◌, fail_if}
use hypercarry.Execution.Journal.{ExecutionNetwork, testnet_network, mainnet_network}

abbrev pub required_clean_sessions : ℕ
required_clean_sessions = 3

abbrev pub mainnet_confirmation : Text
mainnet_confirmation = codes "ENABLE HYPERCARRY MAINNET CANARY"

-- The witnesses that a host must hold: `ExplicitMainnetEnable` and `InteractiveMainnetConfirmation`.
pub data ExplicitMainnetEnable : Type 0 where
  enabled : ExplicitMainnetEnable

pub data InteractiveMainnetConfirmation : Type 0 where
  confirmed : InteractiveMainnetConfirmation

unfoldable pub from_cli_flag : Bool → Result ExplicitMainnetEnable
from_cli_flag flag = fail_if (not flag) release_gate >> ok enabled

unfoldable pub new_confirmation : Text → Result InteractiveMainnetConfirmation
new_confirmation value =
    fail_if (not (text_eq value mainnet_confirmation)) release_gate >> ok confirmed

abbrev is_alias_byte : ℕ → Bool
is_alias_byte c = is_ascii_alphanumeric c || c == b'-' || c == b'_' || c == b'.' || c == b'/'

abbrev is_alias : Text → Bool
is_alias value = not (is_empty value) && not (ltb 128 (byte_len value)) && all is_alias_byte value

unfoldable pub validate_audit_id : Text → Result (Unit {0})
validate_audit_id value = fail_if (not (is_alias value)) release_gate

unfoldable pub validate_commit : Text → Result (Unit {0})
validate_commit value =
    fail_if
      (not (leb 7 (byte_len value) && leb (byte_len value) 40) || not (all is_ascii_hexdigit value))
      release_gate

abbrev is_lower_hex : ℕ → Bool
is_lower_hex c = (leb b'0' c && leb c b'9') || (leb b'a' c && leb c b'f')

unfoldable pub validate_exact_commit : Text → Result (Unit {0})
validate_exact_commit value =
    fail_if (not (byte_len value == 40) || not (all is_lower_hex value)) release_gate

unfoldable pub validate_digest : Text → Result (Unit {0})
validate_digest value =
    fail_if (not (byte_len value == 64) || not (all is_ascii_hexdigit value)) release_gate

-- What a `Signer` says of itself.
pub record Signer : Type 0 where
  pub network : ExecutionNetwork
  pub key_id : Text

unfoldable pub network_eq : ExecutionNetwork → ExecutionNetwork → Bool
network_eq testnet_network testnet_network = true
network_eq mainnet_network mainnet_network = true
network_eq _ _ = false

-- `validate_signer` of signing.rs
unfoldable pub validate_signer : Signer → ExecutionNetwork → Result (Unit {0})
unfolding network_eq
validate_signer s expected = do
  fail_if (not (network_eq s.network expected)) policy
  fail_if (not (is_alias s.key_id)) policy
