-- ===== src/Crypto/Session/History.antt =====
-- Any sequence of packet calls on one session: which transmit nonces it hands out and which inbound
-- sequence numbers it accepts.
pub mod Moves
pub mod Distinct
use shawn_core_libraries.Base.{ℕ, ok, err, List, [], ◌∷◌, Bytes}
use shawn_core_libraries.Crypto.Error.{Outcome}
use shawn_core_libraries.Crypto.Primitives.{Primitives}
use shawn_core_libraries.Crypto.Session.State.{SessionManager}
use shawn_core_libraries.Crypto.Session.Window.{sequence_of, get_next_tx_nonce}
use shawn_core_libraries.Crypto.Session.Packet.{encrypt_packet, decrypt_packet}

-- A call of the host, with the buffers that it passes.
pub data Call : Type 0 where
  encrypt : (aad plaintext ciphertext nonce tag : Bytes) → Call
  next_nonce : (nonce : Bytes) → Call
  decrypt : (aad ciphertext nonce tag plaintext : Bytes) → Call

-- What a call did: handed out a transmit nonce, accepted an inbound number, or neither.
pub data Event : Type 0 where
  used : Bytes → Event
  accepted : ℕ → Event
  refused : Event

abbrev pub on_ok : Outcome (Unit {0}) → Event → Event
on_ok (ok u) e = e
on_ok (err x) e = refused

module _ (p : Primitives) where
  unfoldable pub step : SessionManager → Call → SessionManager × Event
  step s (encrypt aad plaintext ciphertext nonce tag) =
      let (r, s', c, n, t) = encrypt_packet p s aad plaintext ciphertext nonce tag in
      (s', on_ok r (used n))
  step s (next_nonce nonce) = let (r, s', n) = get_next_tx_nonce s nonce in (s', on_ok r (used n))
  step s (decrypt aad ciphertext nonce tag plaintext) =
      let (r, s', b) = decrypt_packet p s aad ciphertext nonce tag plaintext in
      (s', on_ok r (accepted (sequence_of nonce)))

  unfoldable pub events : SessionManager → List Call → List Event
  events s [] = []
  events s (k ∷ ks) = let (s', e) = step s k in e ∷ events s' ks

unfoldable pub nonces : List Event → List Bytes
nonces [] = []
nonces (used n ∷ es) = n ∷ nonces es
nonces (accepted q ∷ es) = nonces es
nonces (refused ∷ es) = nonces es

unfoldable pub sequences : List Event → List ℕ
sequences [] = []
sequences (used n ∷ es) = sequences es
sequences (accepted q ∷ es) = q ∷ sequences es
sequences (refused ∷ es) = sequences es
