-- ===== src/Crypto/Session/Packet.antt =====
-- `encrypt_packet`, `decrypt_packet` and the key checksums of session_manager.rs. Out-parameters
-- are buffers: each function is given their contents and returns them.
use shawn_core_libraries.Base.{
  ℕ, ◌+◌, ◌*◌, ◌/◌, ◌%◌, ◌^◌, Bool, true, false, not, ◌||◌, Option, none, some, ok, err,
  if◌then◌else◌, ltb, ◌==◌, [], ◌∷◌, length, take, drop, bit_or, bit_xor, Bytes,
}
use shawn_core_libraries.Crypto.Error.{Outcome, invalid_state}
use shawn_core_libraries.Crypto.Primitives.{Primitives}
use shawn_core_libraries.Crypto.Aead.{aead_encrypt, aead_decrypt}
use shawn_core_libraries.Crypto.Session.State.{SessionManager, PendingAuthentication}
use shawn_core_libraries.Crypto.Session.Window.{u64_max, nonce_of, check_rx_nonce, commit_rx_nonce}

abbrev pub is_some : Option PendingAuthentication → Bool
is_some none = false
is_some (some a) = true

-- `rotate_left(5)` of a 32-bit word.
abbrev rotate_left_5 : ℕ → ℕ
rotate_left_5 c = c * 2 ^ 5 % 2 ^ 32 + c / 2 ^ 27

-- The loop of `key_checksum`, at `index`.
checksum_from : (index checksum : ℕ) → Bytes → ℕ
checksum_from index checksum [] = checksum
checksum_from index checksum (b ∷ bs) =
    checksum_from (index + 1)
      (bit_xor (rotate_left_5 (bit_xor checksum (b * 2 ^ (index % 4 * 8)))) 0x9E3779B9) bs

unfoldable pub key_checksum : Bytes → ℕ
unfolding checksum_from
key_checksum key = checksum_from 0 0 key

unfoldable pub verify_key_integrity : SessionManager → Outcome (Unit {0})
verify_key_integrity s = if not s.is_established then err invalid_state else elim s.tx_key [
  | none ↦ err invalid_state
  | some tx_key ↦ elim s.rx_key [
    | none ↦ err invalid_state
    | some rx_key ↦
        if bit_or (bit_xor (key_checksum tx_key) s.tx_key_checksum)
            (bit_xor (key_checksum rx_key) s.rx_key_checksum)
          == 0
        then ok tt
        else err invalid_state
  ]
]

-- `!is_established || pending_auth.is_some() || lengths differ`.
abbrev pub refuses : SessionManager → Bytes → Bytes → Bool
refuses s a b = not s.is_established || (is_some s.pending_auth || not (length a == length b))

module _ (p : Primitives) where
  -- The result, the session, and the ciphertext, nonce and tag buffers.
  unfoldable pub encrypt_packet :
      SessionManager
      → (aad plaintext ciphertext nonce tag : Bytes)
      → Outcome (Unit {0}) × SessionManager × Bytes × Bytes × Bytes
  encrypt_packet s aad plaintext ciphertext nonce tag =
      if refuses s ciphertext plaintext
      then (err invalid_state, s, ciphertext, nonce, tag)
      else if s.tx_counter == u64_max
      then (err invalid_state, s, ciphertext, nonce, tag)
      else elim s.tx_key [
        | none ↦ (err invalid_state, s, ciphertext, nonce, tag)
        | some key ↦
            let (r, c, t) =
              aead_encrypt p (take 32 key) (drop 32 key) (nonce_of s.tx_counter) aad plaintext
                ciphertext tag in
            elim r [
              | err e ↦ (err e, s, c, nonce, t)
              | ok u ↦
                  if ltb u64_max (s.tx_counter + 1)
                  then (err invalid_state, s, c, nonce_of s.tx_counter, t)
                  else (
                    ok tt,
                    record s { tx_counter = s.tx_counter + 1 },
                    c,
                    nonce_of s.tx_counter,
                    t,
                  )
            ]
      ]

  -- The result, the session and the plaintext buffer.
  unfoldable pub decrypt_packet :
      SessionManager
      → (aad ciphertext nonce tag plaintext : Bytes) → Outcome (Unit {0}) × SessionManager × Bytes
  decrypt_packet s aad ciphertext nonce tag plaintext =
      if refuses s plaintext ciphertext
      then (err invalid_state, s, plaintext)
      else elim (check_rx_nonce s nonce) [
        | err e ↦ (err e, s, plaintext)
        | ok u ↦ elim s.rx_key [
          | none ↦ (err invalid_state, s, plaintext)
          | some key ↦
              let (r, buffer) =
                aead_decrypt p (take 32 key) (drop 32 key) nonce aad ciphertext tag plaintext in
              elim r [
                | err e ↦ (err e, s, buffer)
                | ok v ↦ (ok tt, commit_rx_nonce s nonce, buffer)
              ]
        ]
      ]
