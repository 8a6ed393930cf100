-- ===== src/Crypto/Session/Traffic.antt =====
-- encrypt_packet and decrypt_packet of session_manager.rs, one call each and one after the other.
use shawn_core_libraries.Base.{
  ℕ, ◌+◌, ◌^◌, ◌<◌, true, none, some, ok, err, ◌≡◌, ap, ◌∙◌, length, drop, take, arith, Bytes,
}
use shawn_core_libraries.Base.Encoding.{
  to_le_bytes, from_le_bytes, all_equal, length-to_le_bytes, from_le_bytes-to_le_bytes, take-append,
  drop-append, all_equal-replicate,
}
use shawn_core_libraries.Crypto.Error.{CryptoError}
use shawn_core_libraries.Crypto.Primitives.{Primitives, ComparesBytes, IsStreamCipher}
use shawn_core_libraries.Crypto.Aead.{aead_encrypt}
use shawn_core_libraries.Crypto.Aead.RoundTrip.{
  Encrypted, aead_encrypt-Encrypted, aead_decrypt-aead_encrypt,
}
use shawn_core_libraries.Crypto.Session.State.{SessionManager}
use shawn_core_libraries.Crypto.Session.Window.{
  u64_max, nonce_of, sequence_of, check_rx_nonce, check_sequence, commit_sequence, commit_rx_nonce,
}
use shawn_core_libraries.Crypto.Session.Packet.{encrypt_packet, decrypt_packet}

-- A counter that fits 64 bits is read back from its nonce, whose last four bytes are zero.
pub sequence_of-nonce_of : (n : ℕ) → n < 2 ^ 64 → sequence_of (nonce_of n) ≡ n
unfolding sequence_of nonce_of
sequence_of-nonce_of n h =
    ap from_le_bytes (take-append 8 (to_le_bytes 8 n) _ (length-to_le_bytes 8 n))
    ∙ from_le_bytes-to_le_bytes 8 n h

check_rx_nonce-nonce_of :
    (s : SessionManager) (n : ℕ) → n < 2 ^ 64 → check_rx_nonce s (nonce_of n) ≡ check_sequence s n
unfolding check_rx_nonce
check_rx_nonce-nonce_of s n h =
    ground (arith, tail_is_zero, ap (check_sequence s) (sequence_of-nonce_of n h))
  where
    tail_is_zero : all_equal 0 (drop 8 (nonce_of n)) ≡ true
    tail_is_zero =
        unfold nonce_of in
        (ap (all_equal 0) (drop-append 8 (to_le_bytes 8 n) _ (length-to_le_bytes 8 n))
          ∙ all_equal-replicate 4 0)

-- A nonce is accepted only if its sequence number is.
check_rx_nonce_ok :
    (s : SessionManager) (nonce : Bytes)
    → check_rx_nonce s nonce ≡ ok tt
    → check_sequence s (sequence_of nonce) ≡ ok tt
unfolding check_rx_nonce
check_rx_nonce_ok s nonce h = ground arith

module _ (p : Primitives) where
  -- A call of `encrypt_packet` that returns an error leaves the session as it was, its counter
  -- included.
  pub encrypt_packet_error :
      (s : SessionManager) (aad plaintext ciphertext nonce tag : Bytes) {e : CryptoError}
      → (encrypt_packet p s aad plaintext ciphertext nonce tag).0 ≡ err e
      → (encrypt_packet p s aad plaintext ciphertext nonce tag).1 ≡ s
  unfolding encrypt_packet
  encrypt_packet_error s aad plaintext ciphertext nonce tag h = ground arith

  -- A call of `decrypt_packet` that returns an error leaves the session as it was, its replay
  -- window included.
  pub decrypt_packet_error :
      (s : SessionManager) (aad ciphertext nonce tag plaintext : Bytes) {e : CryptoError}
      → (decrypt_packet p s aad ciphertext nonce tag plaintext).0 ≡ err e
      → (decrypt_packet p s aad ciphertext nonce tag plaintext).1 ≡ s
  unfolding decrypt_packet
  decrypt_packet_error s aad ciphertext nonce tag plaintext h = ground arith

  -- A packet is accepted only if its sequence number passes the replay check, and then exactly that
  -- number is committed.
  pub decrypt_packet_ok :
      (s : SessionManager) (aad ciphertext nonce tag plaintext : Bytes)
      → (decrypt_packet p s aad ciphertext nonce tag plaintext).0 ≡ ok tt
      → (check_sequence s (sequence_of nonce) ≡ ok tt)
        × ((decrypt_packet p s aad ciphertext nonce tag plaintext).1 ≡ commit_rx_nonce s nonce)
  unfolding decrypt_packet
  decrypt_packet_ok s aad ciphertext nonce tag plaintext h =
      ground (arith, check_rx_nonce_ok s nonce)

  -- A successful encryption hands out the nonce of the counter, which it moves on by one.
  pub encrypt_packet_ok :
      (s : SessionManager) (aad plaintext ciphertext nonce tag : Bytes)
      → (encrypt_packet p s aad plaintext ciphertext nonce tag).0 ≡ ok tt
      → (s.tx_counter < u64_max)
        × ((encrypt_packet p s aad plaintext ciphertext nonce tag).1
            ≡ record s { tx_counter = s.tx_counter + 1 })
        × ((encrypt_packet p s aad plaintext ciphertext nonce tag).3 ≡ nonce_of s.tx_counter)
  unfolding encrypt_packet
  encrypt_packet_ok s aad plaintext ciphertext nonce tag h = ground arith

  -- What a successful encryption under `key` did.
  encrypt_packet_sealed :
      (s : SessionManager) (aad plaintext ciphertext nonce tag key : Bytes) {s' : SessionManager}
      {c n t : Bytes}
      → s.tx_key ≡ some key
      → encrypt_packet p s aad plaintext ciphertext nonce tag ≡ (ok tt, s', c, n, t)
      → aead_encrypt p
          (take 32 key)
          (drop 32 key)
          (nonce_of s.tx_counter)
          aad
          plaintext
          ciphertext
          tag
        ≡ (ok tt, c, t)
  unfolding encrypt_packet
  encrypt_packet_sealed s aad plaintext ciphertext nonce tag key k h = ground arith

  -- The packet that one side seals, the other opens. With a comparison and a cipher that keep
  -- their laws: if the receiver is established and confirmed, holds the sender's transmit key, and
  -- its window admits the sender's counter, it gets the plaintext back in a buffer of the same
  -- length and commits exactly that number.
  pub packet_round_trip :
      (s r : SessionManager) (aad plaintext ciphertext nonce tag buffer key : Bytes)
      {s' : SessionManager} {c n t : Bytes}
      → ComparesBytes p
      → IsStreamCipher p
      → s.tx_key ≡ some key
      → r.rx_key ≡ some key
      → r.is_established ≡ true
      → r.pending_auth ≡ none
      → length buffer ≡ length plaintext
      → check_sequence r s.tx_counter ≡ ok tt
      → encrypt_packet p s aad plaintext ciphertext nonce tag ≡ (ok tt, s', c, n, t)
      → decrypt_packet p r aad c n t buffer ≡ (ok tt, commit_sequence r s.tx_counter, plaintext)
  unfolding decrypt_packet commit_rx_nonce
  packet_round_trip s r aad plaintext ciphertext nonce tag buffer key {s'} {c} {n} {t} eq cipher ks
        kr up conf len fresh h =
      ground (
        arith,
        sent,
        sealed.cipher,
        cipher.length_kept (take 32 key) (nonce_of s.tx_counter) plaintext sealed.cipher
            sealed.applied,
        check_rx_nonce-nonce_of r s.tx_counter,
        sequence_of-nonce_of s.tx_counter,
        ap (commit_sequence r) {x = sequence_of (nonce_of s.tx_counter)} {y = s.tx_counter},
        aead_decrypt-aead_encrypt p (take 32 key) (drop 32 key) (nonce_of s.tx_counter) aad
            plaintext ciphertext tag buffer eq cipher under_key len,
      )
    where
      sent :
          (s.tx_counter < u64_max)
          × ((encrypt_packet p s aad plaintext ciphertext nonce tag).1
              ≡ record s { tx_counter = s.tx_counter + 1 })
          × ((encrypt_packet p s aad plaintext ciphertext nonce tag).3 ≡ nonce_of s.tx_counter)
      sent = encrypt_packet_ok s aad plaintext ciphertext nonce tag (ap (λ o. o.0) h)

      under_key :
          aead_encrypt p
            (take 32 key)
            (drop 32 key)
            (nonce_of s.tx_counter)
            aad
            plaintext
            ciphertext
            tag
          ≡ (ok tt, c, t)
      under_key = encrypt_packet_sealed s aad plaintext ciphertext nonce tag key ks h

      sealed : Encrypted p (take 32 key) (drop 32 key) (nonce_of s.tx_counter) aad plaintext c t
      sealed =
          aead_encrypt-Encrypted p (take 32 key) (drop 32 key) (nonce_of s.tx_counter) aad plaintext
            ciphertext tag under_key
