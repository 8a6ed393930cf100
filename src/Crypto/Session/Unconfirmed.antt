-- ===== src/Crypto/Session/Unconfirmed.antt =====
-- The session of the encapsulating side in session_manager.rs, before confirm_peer has succeeded.
use shawn_core_libraries.Base.{
  Bool, true, false, some, ok, err, if◌then◌else◌, List, [], ◌∷◌, Bytes, ◌≡◌, ◌⊎◌, inl, inr, refl,
  ap, Result-cases, arith,
}
use shawn_core_libraries.Crypto.Error.{Outcome, invalid_state}
use shawn_core_libraries.Crypto.Primitives.{Primitives}
use shawn_core_libraries.Crypto.Session.State.{
  SessionManager, PendingAuthentication, zeroize_session,
}
use shawn_core_libraries.Crypto.Session.Packet.{encrypt_packet, decrypt_packet}
use shawn_core_libraries.Crypto.Session.Authenticated.{encapsulate_authenticated, confirm_peer}
use shawn_core_libraries.Crypto.Session.Mutual.{encapsulate_authenticated_ok}
use shawn_core_libraries.Crypto.Session.Confirmation.{confirm_peer_error}

-- A call on the session, with the buffers and the message that it is given.
pub data Use : Type 0 where
  seals : (aad plaintext ciphertext nonce tag : Bytes) → Use
  opens : (aad ciphertext nonce tag plaintext : Bytes) → Use
  confirms : (peer_vk signature tag : Bytes) → Use

abbrev pub is_ok : Outcome (Unit {0}) → Bool
is_ok (ok u) = true
is_ok (err e) = false

module _ (p : Primitives) where
  -- Whether a packet is sealed or opened before the first confirmation that succeeds.
  unfoldable pub used_early : SessionManager → List Use → Bool
  used_early s [] = false
  used_early s (seals aad plaintext ciphertext nonce tag ∷ us) =
      let (r, s', c, n, t) = encrypt_packet p s aad plaintext ciphertext nonce tag in
      let rest = used_early s' us in if is_ok r then true else rest
  used_early s (opens aad ciphertext nonce tag plaintext ∷ us) =
      let (r, s', b) = decrypt_packet p s aad ciphertext nonce tag plaintext in
      let rest = used_early s' us in if is_ok r then true else rest
  used_early s (confirms peer_vk signature tag ∷ us) =
      let (r, s') = confirm_peer p s peer_vk signature tag in
      let rest = used_early s' us in if is_ok r then false else rest

  -- Not established, or restricted.
  abbrev Locked : SessionManager → Type 0
  Locked s = (s.is_established ≡ false) ⊎ ((q : PendingAuthentication) × (s.pending_auth ≡ some q))

  Locked-encrypt :
      (s : SessionManager) (aad plaintext ciphertext nonce tag : Bytes)
      → Locked s
      → encrypt_packet p s aad plaintext ciphertext nonce tag
        ≡ (err invalid_state, s, ciphertext, nonce, tag)
  unfolding encrypt_packet
  Locked-encrypt s aad plaintext ciphertext nonce tag (inl down) = ground arith
  Locked-encrypt s aad plaintext ciphertext nonce tag (inr (q, waits)) = ground arith

  Locked-decrypt :
      (s : SessionManager) (aad ciphertext nonce tag plaintext : Bytes)
      → Locked s
      → decrypt_packet p s aad ciphertext nonce tag plaintext ≡ (err invalid_state, s, plaintext)
  unfolding decrypt_packet
  Locked-decrypt s aad ciphertext nonce tag plaintext (inl down) = ground arith
  Locked-decrypt s aad ciphertext nonce tag plaintext (inr (q, waits)) = ground arith

  -- A confirmation that fails leaves the session restricted, or wipes it.
  Locked-confirm :
      (s s' : SessionManager) → Locked s → (s' ≡ s) ⊎ (s' ≡ zeroize_session s) → Locked s'
  unfolding zeroize_session
  Locked-confirm s s' l (inl same) = rw same l
  Locked-confirm s s' l (inr wiped) = inl (ap (λ x. x.is_established) wiped)

  Locked-used_early : (s : SessionManager) (us : List Use) → Locked s → used_early s us ≡ false
  unfolding used_early
  Locked-used_early s [] l = refl
  Locked-used_early s (seals aad plaintext ciphertext nonce tag ∷ us) l =
      rw (Locked-encrypt s aad plaintext ciphertext nonce tag l) (Locked-used_early s us l)
  Locked-used_early s (opens aad ciphertext nonce tag plaintext ∷ us) l =
      rw (Locked-decrypt s aad ciphertext nonce tag plaintext l) (Locked-used_early s us l)
  Locked-used_early s (confirms peer_vk signature tag ∷ us) l =
      elim (Result-cases (confirm_peer p s peer_vk signature tag).0) [
        | inl (u, good) ↦ rw good refl
        | inr (e, bad) ↦
            let s' = (confirm_peer p s peer_vk signature tag).1 in
            rw bad (
              Locked-used_early s' us (
                Locked-confirm s s' l
                  (confirm_peer_error p s peer_vk signature tag (ap (λ r. (r, s')) bad))))
      ]

  -- A session that `encapsulate_authenticated` has established: in any sequence of encryptions,
  -- decryptions and confirmations on it, whatever their arguments, no packet is sealed or opened
  -- before a call of `confirm_peer` has succeeded.
  pub encapsulate_authenticated-used_early :
      (s : SessionManager) (own_sk peer_vk peer_mk peer_xk entropy salt app_info : Bytes)
      (out_ct out_pk out_signature out_tag : Bytes) (us : List Use) {s' : SessionManager}
      {ct pk signature tag : Bytes}
      → encapsulate_authenticated p s own_sk peer_vk peer_mk peer_xk entropy salt app_info out_ct
          out_pk out_signature out_tag
        ≡ (ok tt, s', ct, pk, signature, tag)
      → used_early s' us ≡ false
  encapsulate_authenticated-used_early s own_sk peer_vk peer_mk peer_xk entropy salt app_info out_ct
        out_pk out_signature out_tag us {s'} h =
      let sent =
        encapsulate_authenticated_ok p s own_sk peer_vk peer_mk peer_xk entropy salt app_info out_ct
          out_pk out_signature out_tag h in
      Locked-used_early s' us (inr (_, ap (λ x. x.pending_auth) sent.left))
