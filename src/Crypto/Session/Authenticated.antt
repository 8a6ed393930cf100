-- ===== src/Crypto/Session/Authenticated.antt =====
-- The authenticated handshake of session_manager.rs (protocol version 2). Out-parameters are
-- buffers: each function is given their contents and returns them.
use shawn_core_libraries.Base.{
  Bool, true, not, none, some, ok, err, if◌then◌else◌, take, drop, Bytes, ◌>>=◌,
}
use shawn_core_libraries.Crypto.Error.{
  Outcome, invalid_state, verification_failed, key_confirmation_failed,
}
use shawn_core_libraries.Crypto.Primitives.{Primitives}
use shawn_core_libraries.Crypto.Wrappers.{
  ml_kem_decapsulate, x25519_keygen, x25519_diffie_hellman, ml_dsa_sign_with_context,
  ml_dsa_verify_with_context,
}
use shawn_core_libraries.Crypto.Kdf.{confirmation_info, derive_hybrid_key_with_confirmation}
use shawn_core_libraries.Crypto.Auth.{
  identity_fingerprint, handshake_binding, transcript_hash, encapsulator_digest, keygen_digest,
  confirmation_tag, confirmation_tags_equal, confirmation_key_len, context_encapsulating_side,
  context_keygen_side, confirm_label_encapsulating_side, confirm_label_keygen_side,
}
use shawn_core_libraries.Crypto.Session.State.{
  SessionManager, PendingAuthentication, zeroize_session, wipe_pending_authentication,
}
use shawn_core_libraries.Crypto.Session.Packet.{is_some}
use shawn_core_libraries.Crypto.Session.Handshake.{
  inner_key, outer_key, install, handshake_transcript, encapsulate_inner,
}

unfoldable pub is_awaiting_peer_confirmation : SessionManager → Bool
is_awaiting_peer_confirmation s = is_some s.pending_auth

module _ (p : Primitives) where
  -- The tag, the digest that extends it and the signature of the encapsulating side.
  unfoldable pub encapsulator_proof :
      (own_signing_key encapsulator_key transcript : Bytes) → Outcome (Bytes × Bytes × Bytes)
  encapsulator_proof own_signing_key encapsulator_key transcript = do
    tag ← confirmation_tag p encapsulator_key confirm_label_encapsulating_side transcript
    let digest = encapsulator_digest p transcript tag
    signature ← ml_dsa_sign_with_context p own_signing_key digest context_encapsulating_side
    ok (tag, digest, signature)

  -- The result, the session, and the ciphertext, public key, signature and confirmation buffers.
  unfoldable pub encapsulate_authenticated :
      SessionManager
      → (own_signing_key peer_verifying_key peer_ml_kem_pk peer_x25519_pk entropy salt
          app_info : Bytes)
      → (out_ct out_pk out_signature out_confirmation : Bytes)
      → Outcome (Unit {0}) × SessionManager × Bytes × Bytes × Bytes × Bytes
  encapsulate_authenticated s own_signing_key peer_verifying_key peer_ml_kem_pk peer_x25519_pk
        entropy salt app_info out_ct out_pk out_signature out_confirmation =
      let own_identity = identity_fingerprint p (p.ml_dsa_verifying_key own_signing_key) in
      let peer_identity = identity_fingerprint p peer_verifying_key in
      elim (handshake_binding p peer_ml_kem_pk peer_x25519_pk peer_identity own_identity app_info) [
        | err e ↦ (err e, s, out_ct, out_pk, out_signature, out_confirmation)
        | ok binding ↦
            let (r, s', ct, pk) =
              encapsulate_inner p s peer_ml_kem_pk peer_x25519_pk entropy salt binding out_ct out_pk
                true in
            elim r [
              | err e ↦ (err e, s', ct, pk, out_signature, out_confirmation)
              | ok none ↦ (err invalid_state, s', ct, pk, out_signature, out_confirmation)
              | ok (some confirmation) ↦
                  elim (encapsulator_proof own_signing_key (take confirmation_key_len confirmation)
                    (transcript_hash p binding ct pk)) [
                      | err e ↦ (err e, zeroize_session s', ct, pk, out_signature, out_confirmation)
                      | ok (tag, digest, signature) ↦ (
                        ok tt,
                        record s' {
                          pending_auth = some (record {
                            digest = digest;
                            peer_identity = peer_identity;
                            confirmation_key = drop confirmation_key_len confirmation;
                          });
                        },
                        ct,
                        pk,
                        signature,
                        tag,
                      )
                    ]
            ]
      ]

  -- The tag and the signature of the key-generating side.
  unfoldable pub keygen_proof :
      (own_signing_key keygen_key peer_digest : Bytes) → Outcome (Bytes × Bytes)
  keygen_proof own_signing_key keygen_key peer_digest = do
    tag ← confirmation_tag p keygen_key confirm_label_keygen_side peer_digest
    let digest = keygen_digest p peer_digest tag
    signature ← ml_dsa_sign_with_context p own_signing_key digest context_keygen_side
    ok (signature, tag)

  -- The session and the confirmation bytes of the key-generating side.
  unfoldable pub authenticated_secrets :
      (ml_kem_dk x25519_sk peer_x25519_pk ml_kem_ct salt binding : Bytes) → Outcome (Bytes × Bytes)
  authenticated_secrets ml_kem_dk x25519_sk peer_x25519_pk ml_kem_ct salt binding = do
    pq_secret ← ml_kem_decapsulate p ml_kem_dk ml_kem_ct
    classical_secret ← x25519_diffie_hellman p x25519_sk peer_x25519_pk
    let inner = handshake_transcript p ml_kem_ct peer_x25519_pk binding
    (derive_hybrid_key_with_confirmation p pq_secret classical_secret salt inner
        (confirmation_info inner)).0

  -- The peer's tag against the one that the derived key gives.
  unfoldable pub check_confirmation :
      (encapsulator_key transcript peer_confirmation : Bytes) → Outcome (Unit {0})
  check_confirmation encapsulator_key transcript peer_confirmation = do
    expected ← confirmation_tag p encapsulator_key confirm_label_encapsulating_side transcript
    if not (confirmation_tags_equal p expected peer_confirmation)
        then err key_confirmation_failed
        else ok tt

  -- The signature, the tag and the session bytes. Its reads of the two keys cannot fail where
  -- `finalize_authenticated` calls it; they are arguments.
  unfoldable pub complete_authenticated_finalize :
      (ml_kem_dk x25519_sk own_signing_key peer_x25519_pk ml_kem_ct peer_confirmation salt : Bytes)
      → (binding transcript peer_digest : Bytes) → Outcome (Bytes × Bytes × Bytes)
  complete_authenticated_finalize ml_kem_dk x25519_sk own_signing_key peer_x25519_pk ml_kem_ct
        peer_confirmation salt binding transcript peer_digest =
      do
        (session, confirmation) ←
            authenticated_secrets ml_kem_dk x25519_sk peer_x25519_pk ml_kem_ct salt binding
        checked ←
            check_confirmation (take confirmation_key_len confirmation) transcript peer_confirmation
        (signature, tag) ←
            keygen_proof own_signing_key (drop confirmation_key_len confirmation) peer_digest
        ok (signature, tag, session)

  -- The result, the session, and the signature and confirmation buffers.
  unfoldable pub finalize_authenticated :
      SessionManager
      → (own_signing_key peer_verifying_key peer_x25519_pk ml_kem_ct peer_signature : Bytes)
      → (peer_confirmation salt app_info out_signature out_confirmation : Bytes)
      → Outcome (Unit {0}) × SessionManager × Bytes × Bytes
  finalize_authenticated s own_signing_key peer_verifying_key peer_x25519_pk ml_kem_ct
        peer_signature peer_confirmation salt app_info out_signature out_confirmation =
      elim s.ml_kem_dk [
        | none ↦ (err invalid_state, s, out_signature, out_confirmation)
        | some dk ↦ elim s.x25519_sk [
          | none ↦ (err invalid_state, s, out_signature, out_confirmation)
          | some sk ↦
              let own_identity = identity_fingerprint p (p.ml_dsa_verifying_key own_signing_key) in
              let peer_identity = identity_fingerprint p peer_verifying_key in
              elim (handshake_binding p (p.ml_kem_encapsulation_key dk) (x25519_keygen p sk).0
                own_identity peer_identity app_info) [
                  | err e ↦ (err e, s, out_signature, out_confirmation)
                  | ok binding ↦
                      let transcript = transcript_hash p binding ml_kem_ct peer_x25519_pk in
                      let peer_digest = encapsulator_digest p transcript peer_confirmation in
                      elim (ml_dsa_verify_with_context p peer_verifying_key peer_digest
                        context_encapsulating_side peer_signature) [
                          | err e ↦ (err e, s, out_signature, out_confirmation)
                          | ok verified ↦
                              elim (complete_authenticated_finalize dk sk own_signing_key
                                peer_x25519_pk ml_kem_ct peer_confirmation salt binding transcript
                                peer_digest) [
                                  | err e ↦
                                      (err e, zeroize_session s, out_signature, out_confirmation)
                                  | ok (signature, tag, session) ↦ (
                                    ok tt,
                                    install s (outer_key session) (inner_key session),
                                    signature,
                                    tag,
                                  )
                                ]
                        ]
                ]
        ]
      ]

  -- From the verified signature on: the tag decides.
  unfoldable pub confirm_tag :
      SessionManager
      → PendingAuthentication
      → (peer_confirmation : Bytes) → Outcome (Unit {0}) × SessionManager
  unfolding wipe_pending_authentication
  confirm_tag s pending peer_confirmation =
      elim (confirmation_tag p pending.confirmation_key confirm_label_keygen_side pending.digest) [
        | err e ↦ (err e, zeroize_session s)
        | ok tag ↦
            if confirmation_tags_equal p tag peer_confirmation
            then (ok tt, wipe_pending_authentication s)
            else (err key_confirmation_failed, zeroize_session s)
      ]

  unfoldable pub confirm_peer :
      SessionManager
      → (peer_verifying_key peer_signature peer_confirmation : Bytes)
      → Outcome (Unit {0}) × SessionManager
  unfolding confirm_tag
  confirm_peer s peer_verifying_key peer_signature peer_confirmation = elim s.pending_auth [
    | none ↦ (err invalid_state, s)
    | some pending ↦
        if not (
          confirmation_tags_equal p (identity_fingerprint p peer_verifying_key)
            pending.peer_identity)
        then (err verification_failed, s)
        else elim (ml_dsa_verify_with_context p peer_verifying_key
            (keygen_digest p pending.digest peer_confirmation) context_keygen_side peer_signature) [
              | err e ↦ (err e, s)
              | ok verified ↦ confirm_tag s pending peer_confirmation
            ]
  ]
