-- ===== src/Crypto/Session/History/Moves.antt =====
-- What one packet call does to the session, in three cases.
use shawn_core_libraries.Base.{
  ℕ, ◌+◌, ◌≤◌, ◌<◌, ok, ◌≡◌, Bool-cases, inl, inr, arith, Bytes, Result-cases, ltb, ◌==◌,
}
use shawn_core_libraries.Crypto.Primitives.{Primitives}
use shawn_core_libraries.Crypto.Session.State.{SessionManager}
use shawn_core_libraries.Crypto.Session.Window.{
  u64_max, nonce_of, sequence_of, check_sequence, commit_sequence, commit_rx_nonce,
  get_next_tx_nonce,
}
use shawn_core_libraries.Crypto.Session.Packet.{encrypt_packet, decrypt_packet}
use shawn_core_libraries.Crypto.Session.Traffic.{
  encrypt_packet_ok, encrypt_packet_error, decrypt_packet_ok, decrypt_packet_error,
}
use shawn_core_libraries.Crypto.Session.History.{
  Call, encrypt, next_nonce, decrypt, Event, used, accepted, refused, on_ok, step,
}

-- What any one call may do: send under the next counter, commit a number that passes the replay
-- check, or leave the session alone.
pub data Moved (s : SessionManager) : SessionManager → Event → Type 0 where
  sent :
      s.tx_counter < u64_max
      → Moved s (record s { tx_counter = s.tx_counter + 1 }) (used (nonce_of s.tx_counter))
  took : (q : ℕ) → check_sequence s q ≡ ok tt → Moved s (commit_sequence s q) (accepted q)
  stayed : Moved s s refused

pub tx_counter-commit_sequence :
    (s : SessionManager) (q : ℕ) → (commit_sequence s q).tx_counter ≡ s.tx_counter
unfolding commit_sequence
tx_counter-commit_sequence s q = ground arith

next_nonce-Moved :
    (s : SessionManager) (nonce : Bytes)
    → s.tx_counter ≤ u64_max
    → let (r, s', n) = get_next_tx_nonce s nonce in Moved s s' (on_ok r (used n))
unfolding get_next_tx_nonce
next_nonce-Moved s nonce h = elim (Bool-cases (s.tx_counter == u64_max)) [
  | inl full ↦ rw full stayed
  | inr room ↦ elim (Bool-cases (ltb u64_max (s.tx_counter + 1))) [
    | inl over ↦ absurd (ground arith)
    | inr fits ↦ rw (room, fits) (sent (ground arith))
  ]
]

module _ (p : Primitives) where
  -- Every call of the host is one of these moves.
  pub step-Moved :
      (s : SessionManager) (k : Call)
      → s.tx_counter ≤ u64_max
      → Moved s (step p s k).0 (step p s k).1
  unfolding step commit_rx_nonce
  step-Moved s (next_nonce nonce) h = next_nonce-Moved s nonce h
  step-Moved s (encrypt aad plaintext ciphertext nonce tag) h =
      elim (Result-cases (encrypt_packet p s aad plaintext ciphertext nonce tag).0) [
        | inl (u, good) ↦
            let (lt, moved, out) = encrypt_packet_ok p s aad plaintext ciphertext nonce tag good in
            rw (good, moved, out) (sent lt)
        | inr (e, bad) ↦
            rw (bad, encrypt_packet_error p s aad plaintext ciphertext nonce tag bad) stayed
      ]
  step-Moved s (decrypt aad ciphertext nonce tag plaintext) h =
      elim (Result-cases (decrypt_packet p s aad ciphertext nonce tag plaintext).0) [
        | inl (u, good) ↦
            let (fresh, moved) = decrypt_packet_ok p s aad ciphertext nonce tag plaintext good in
            rw (good, moved) (took (sequence_of nonce) fresh)
        | inr (e, bad) ↦
            rw (bad, decrypt_packet_error p s aad ciphertext nonce tag plaintext bad) stayed
      ]
