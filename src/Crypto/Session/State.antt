-- ===== src/Crypto/Session/State.antt =====
-- `struct SessionManager` and what resets it. A key object of a cryptographic crate stands for the
-- byte string that encodes it.
use shawn_core_libraries.Base.{ℕ, Bool, false, Option, none, Bytes}

pub record PendingAuthentication : Type 0 where
  pub digest : Bytes
  pub peer_identity : Bytes
  pub confirmation_key : Bytes

pub record SessionManager : Type 0 where
  pub ml_kem_dk : Option Bytes
  pub x25519_sk : Option Bytes
  pub tx_key : Option Bytes
  pub rx_key : Option Bytes
  pub tx_key_checksum : ℕ  -- u32
  pub rx_key_checksum : ℕ  -- u32
  pub is_established : Bool
  pub tx_counter : ℕ  -- u64
  pub rx_counter : ℕ  -- u64
  pub rx_window : ℕ  -- u64
  pub pending_auth : Option PendingAuthentication

abbrev pub new : SessionManager
new = record {
  ml_kem_dk = none;
  x25519_sk = none;
  tx_key = none;
  rx_key = none;
  tx_key_checksum = 0;
  rx_key_checksum = 0;
  is_established = false;
  tx_counter = 0;
  rx_counter = 0;
  rx_window = 0;
  pending_auth = none;
}

-- The wipe of the buffers before they are dropped leaves no trace in the value.
unfoldable pub wipe_pending_authentication : SessionManager → SessionManager
wipe_pending_authentication s = record s { pending_auth = none }

-- Field by field, as the code resets them.
unfoldable pub zeroize_session : SessionManager → SessionManager
unfolding wipe_pending_authentication
zeroize_session s = wipe_pending_authentication (record s {
  ml_kem_dk = none;
  x25519_sk = none;
  tx_key = none;
  rx_key = none;
  tx_key_checksum = 0;
  rx_key_checksum = 0;
  is_established = false;
  tx_counter = 0;
  rx_counter = 0;
  rx_window = 0;
})
