-- ===== src/Crypto/Session/Confirmation.antt =====
-- finalize_authenticated and confirm_peer of session_manager.rs, for messages of any origin.
use shawn_core_libraries.Base.{
  none, some, ok, err, take, Bytes, ◌≡◌, arith, ◌⊎◌, inl, inr, Result-cases, Option-cases,
}
use shawn_core_libraries.Crypto.Error.{Outcome, CryptoError}
use shawn_core_libraries.Crypto.Primitives.{Primitives, ComparesBytes}
use shawn_core_libraries.Crypto.Wrappers.{x25519_keygen, ml_dsa_verify_with_context}
use shawn_core_libraries.Crypto.Auth.{
  identity_fingerprint, handshake_binding, transcript_hash, encapsulator_digest, keygen_digest,
  confirmation_tag, confirmation_tags_equal, confirmation_key_len, context_encapsulating_side,
  context_keygen_side, confirm_label_encapsulating_side, confirm_label_keygen_side,
}
use shawn_core_libraries.Crypto.Session.State.{
  SessionManager, PendingAuthentication, zeroize_session,
}
use shawn_core_libraries.Crypto.Session.Handshake.{inner_key, outer_key, install}
use shawn_core_libraries.Crypto.Session.Authenticated.{
  authenticated_secrets, check_confirmation, complete_authenticated_finalize,
  finalize_authenticated, confirm_peer,
}

module _ (p : Primitives) where
  -- What has to hold for `finalize_authenticated` to succeed, and what it then installs.
  pub record Finalized (s : SessionManager)
      (own_sk peer_vk peer_x25519_pk ct signature tag salt app_info : Bytes) (s' : SessionManager)
      : Type 0 where
    pub dk : Bytes
    pub sk : Bytes
    pub binding : Bytes
    pub session : Bytes
    pub confirmation : Bytes
    pub pending : (s.ml_kem_dk ≡ some dk) × (s.x25519_sk ≡ some sk)
    pub bound :
        handshake_binding p
          (p.ml_kem_encapsulation_key dk)
          (x25519_keygen p sk).0
          (identity_fingerprint p (p.ml_dsa_verifying_key own_sk))
          (identity_fingerprint p peer_vk)
          app_info
        ≡ ok binding
    pub signed :
        ml_dsa_verify_with_context p peer_vk
          (encapsulator_digest p (transcript_hash p binding ct peer_x25519_pk) tag)
          context_encapsulating_side
          signature
        ≡ ok tt
    pub derived :
        authenticated_secrets p dk sk peer_x25519_pk ct salt binding ≡ ok (session, confirmation)
    pub confirmed :
        confirmation_tag p
          (take confirmation_key_len confirmation)
          confirm_label_encapsulating_side
          (transcript_hash p binding ct peer_x25519_pk)
        ≡ ok tag
    pub installed : s' ≡ install s (outer_key session) (inner_key session)

  -- A comparison that decides equality accepts only the tag of the key.
  check_confirmation_sound :
      (key transcript tag : Bytes)
      → ComparesBytes p
      → check_confirmation p key transcript tag ≡ ok tt
      → confirmation_tag p key confirm_label_encapsulating_side transcript ≡ ok tag
  unfolding check_confirmation confirmation_tags_equal
  check_confirmation_sound key transcript tag eq h =
      elim (Result-cases (confirmation_tag p key confirm_label_encapsulating_side transcript)) [
        | inr (e, none_made) ↦ absurd (ground arith)
        | inl (expected, made) ↦ ground (arith, (eq expected tag).0)
      ]

  -- With a comparison that decides equality, `finalize_authenticated` succeeds only if both secret
  -- keys are in place, for a message whose signature, over the transcript and the peer's tag,
  -- verifies under the peer's key, and whose tag is equal to the one that the key derived from the
  -- secrets gives the transcript; it then installs exactly the derived keys.
  pub finalize_authenticated_sound :
      (s : SessionManager) (own_sk peer_vk peer_x25519_pk ct signature tag salt app_info : Bytes)
      (out_signature out_tag : Bytes) {s' : SessionManager} {o t : Bytes}
      → ComparesBytes p
      → finalize_authenticated p s own_sk peer_vk peer_x25519_pk ct signature tag salt app_info
          out_signature out_tag
        ≡ (ok tt, s', o, t)
      → Finalized s own_sk peer_vk peer_x25519_pk ct signature tag salt app_info s'
  unfolding finalize_authenticated complete_authenticated_finalize
  finalize_authenticated_sound s own_sk peer_vk peer_x25519_pk ct signature tag salt app_info
        out_signature out_tag {s'} eq h =
      elim (Option-cases s.ml_kem_dk) [
        | inl no_dk ↦ absurd (ground arith)
        | inr (dk, hd) ↦ elim (Option-cases s.x25519_sk) [
          | inl no_sk ↦ absurd (ground arith)
          | inr (sk, hs) ↦ elim (Result-cases (binding_for dk sk)) [
            | inr (e, hb) ↦ absurd (ground arith)
            | inl (binding, hb) ↦
                elim (Result-cases (authenticated_secrets p dk sk peer_x25519_pk ct salt binding)) [
                  | inr (e, hk) ↦ absurd (ground arith)
                  | inl ((session, confirmation), hk) ↦ record {
                    dk = dk;
                    sk = sk;
                    binding = binding;
                    session = session;
                    confirmation = confirmation;
                    pending = (hd, hs);
                    bound = hb;
                    signed = ground arith;
                    derived = hk;
                    confirmed =
                        check_confirmation_sound (take confirmation_key_len confirmation)
                          (transcript_hash p binding ct peer_x25519_pk) tag eq (ground arith);
                    installed = ground arith;
                  }
                ]
          ]
        ]
      ]
    where
      binding_for : Bytes → Bytes → Outcome Bytes
      binding_for dk sk =
          handshake_binding p (p.ml_kem_encapsulation_key dk) (x25519_keygen p sk).0
            (identity_fingerprint p (p.ml_dsa_verifying_key own_sk))
            (identity_fingerprint p peer_vk) app_info

  -- With both secret keys in place and a binding that can be formed, a message whose signature
  -- does not verify is rejected with the verification's error, and neither the session nor the
  -- output buffers change.
  finalize_authenticated_forged :
      (s : SessionManager) (own_sk peer_vk peer_x25519_pk ct signature tag salt app_info : Bytes)
      (out_signature out_tag : Bytes) {e : CryptoError} {dk sk binding : Bytes}
      → s.ml_kem_dk ≡ some dk
      → s.x25519_sk ≡ some sk
      → handshake_binding p
          (p.ml_kem_encapsulation_key dk)
          (x25519_keygen p sk).0
          (identity_fingerprint p (p.ml_dsa_verifying_key own_sk))
          (identity_fingerprint p peer_vk)
          app_info
        ≡ ok binding
      → ml_dsa_verify_with_context p peer_vk
          (encapsulator_digest p (transcript_hash p binding ct peer_x25519_pk) tag)
          context_encapsulating_side
          signature
        ≡ err e
      → finalize_authenticated p s own_sk peer_vk peer_x25519_pk ct signature tag salt app_info
          out_signature out_tag
        ≡ (err e, s, out_signature, out_tag)
  unfolding finalize_authenticated
  finalize_authenticated_forged s own_sk peer_vk peer_x25519_pk ct signature tag salt app_info
        out_signature out_tag hd hs hb hv =
      ground arith

  -- Any failure of `finalize_authenticated` either leaves the session untouched or wipes it, and
  -- writes no output.
  pub finalize_authenticated_error :
      (s : SessionManager) (own_sk peer_vk peer_x25519_pk ct signature tag salt app_info : Bytes)
      (out_signature out_tag : Bytes) {e : CryptoError} {s' : SessionManager} {o t : Bytes}
      → finalize_authenticated p s own_sk peer_vk peer_x25519_pk ct signature tag salt app_info
          out_signature out_tag
        ≡ (err e, s', o, t)
      → ((s' ≡ s) ⊎ (s' ≡ zeroize_session s)) × (o ≡ out_signature) × (t ≡ out_tag)
  unfolding finalize_authenticated
  finalize_authenticated_error s own_sk peer_vk peer_x25519_pk ct signature tag salt app_info
        out_signature out_tag h =
      ground arith

  -- With a comparison that decides equality, `confirm_peer` succeeds only if the session awaits
  -- confirmation, the key presented is the one that it was bound to, that key's signature covers
  -- the digest and the tag, and the tag is the one of the confirmation key; it then only lifts the
  -- restriction.
  pub confirm_peer_sound :
      (s : SessionManager) (peer_vk signature tag : Bytes) {s' : SessionManager}
      → ComparesBytes p
      → confirm_peer p s peer_vk signature tag ≡ (ok tt, s')
      → (q : PendingAuthentication) × (s.pending_auth ≡ some q)
        × (identity_fingerprint p peer_vk ≡ q.peer_identity)
        × (ml_dsa_verify_with_context p peer_vk
              (keygen_digest p q.digest tag)
              context_keygen_side
              signature
            ≡ ok tt)
        × (confirmation_tag p q.confirmation_key confirm_label_keygen_side q.digest ≡ ok tag)
        × (s' ≡ record s { pending_auth = none })
  unfolding confirm_peer confirmation_tags_equal
  confirm_peer_sound s peer_vk signature tag eq h = elim (Option-cases s.pending_auth) [
    | inl idle ↦ absurd (ground arith)
    | inr (q, hq) ↦
        elim (Result-cases
          (confirmation_tag p q.confirmation_key confirm_label_keygen_side q.digest)) [
            | inr (e, no_tag) ↦ absurd (ground arith)
            | inl (expected, ht) ↦ (
              q,
              hq,
              ground (arith, (eq (identity_fingerprint p peer_vk) q.peer_identity).0),
              ground arith,
              ground (arith, (eq expected tag).0),
              ground arith,
            )
          ]
  ]

  -- When `confirm_peer` fails, the session is the same one as before, or a wiped one.
  pub confirm_peer_error :
      (s : SessionManager) (peer_vk signature tag : Bytes) {e : CryptoError} {s' : SessionManager}
      → confirm_peer p s peer_vk signature tag ≡ (err e, s')
      → (s' ≡ s) ⊎ (s' ≡ zeroize_session s)
  unfolding confirm_peer
  confirm_peer_error s peer_vk signature tag h = ground arith
