-- ===== src/Crypto/Session/Mutual.antt =====
-- The authenticated handshake of session_manager.rs between two honest sides.
use shawn_core_libraries.Base.{
  true, none, some, ok, take, drop, Bytes, ◌≡◌, arith, inl, inr, Result-cases, Option-cases, length,
}
use shawn_core_libraries.Crypto.Error.{Outcome}
use shawn_core_libraries.Crypto.Primitives.{Primitives, IsSignature}
use shawn_core_libraries.Crypto.Wrappers.{
  ml_dsa_sign_with_context, ml_dsa_verify_with_context, ml_dsa_signature_bytes,
}
use shawn_core_libraries.Crypto.Auth.{
  identity_fingerprint, handshake_binding, transcript_hash, encapsulator_digest, confirmation_tag,
  confirmation_key_len, context_encapsulating_side, confirm_label_encapsulating_side,
}
use shawn_core_libraries.Crypto.Session.State.{SessionManager}
use shawn_core_libraries.Crypto.Session.Handshake.{
  inner_key, outer_key, install, encapsulated, encapsulate_inner,
}
use shawn_core_libraries.Crypto.Session.Authenticated.{
  encapsulator_proof, encapsulate_authenticated,
}

-- Deterministic signing under a short context, and HMAC with any key, do not fail.
abbrev pub AlwaysSigns : Primitives → Bytes → Type 0
AlwaysSigns p sk =
    (msg context : Bytes)
    → (signature : Bytes) × (p.ml_dsa_sign sk msg context ≡ some signature)
      × (length signature ≡ ml_dsa_signature_bytes)

abbrev pub AlwaysKeys : Primitives → Type 0
AlwaysKeys p = (key : Bytes) → (mac : Bytes → Bytes) × (p.hmac_sha384 key ≡ some mac)

module _ (p : Primitives) where
  -- What a successful authenticated encapsulation computed, sent and left behind.
  pub record Encapsulated (e : SessionManager) (e_sk k_vk mk xk entropy salt info : Bytes)
      (e' : SessionManager) (ct pk signature tag : Bytes) : Type 0 where
    binding : Bytes
    hybrid : Bytes
    material : Bytes
    bound :
        handshake_binding p mk xk
          (identity_fingerprint p k_vk)
          (identity_fingerprint p (p.ml_dsa_verifying_key e_sk))
          info
        ≡ ok binding
    derived : encapsulated p mk xk entropy salt binding true ≡ ok (hybrid, some material, ct, pk)
    tagged :
        confirmation_tag p
          (take confirmation_key_len material)
          confirm_label_encapsulating_side
          (transcript_hash p binding ct pk)
        ≡ ok tag
    signed :
        ml_dsa_sign_with_context p e_sk
          (encapsulator_digest p (transcript_hash p binding ct pk) tag)
          context_encapsulating_side
        ≡ ok signature
    pub left : e' ≡ record (install e (inner_key hybrid) (outer_key hybrid)) {
      pending_auth = some (record {
        digest = encapsulator_digest p (transcript_hash p binding ct pk) tag;
        peer_identity = identity_fingerprint p k_vk;
        confirmation_key = drop confirmation_key_len material;
      });
    }

  pub encapsulate_authenticated_ok :
      (e : SessionManager) (e_sk k_vk mk xk entropy salt info b1 b2 b3 b4 : Bytes)
      {e' : SessionManager} {ct pk signature tag : Bytes}
      → encapsulate_authenticated p e e_sk k_vk mk xk entropy salt info b1 b2 b3 b4
        ≡ (ok tt, e', ct, pk, signature, tag)
      → Encapsulated e e_sk k_vk mk xk entropy salt info e' ct pk signature tag
  unfolding encapsulate_authenticated encapsulate_inner encapsulator_proof
  encapsulate_authenticated_ok e e_sk k_vk mk xk entropy salt info b1 b2 b3 b4 h =
      elim (Result-cases (binding_of e_sk)) [
        | inr (x, hb) ↦ absurd (ground arith)
        | inl (binding, hb) ↦ elim (Result-cases (encapsulated p mk xk entropy salt binding true)) [
          | inr (x, hd) ↦ absurd (ground arith)
          | inl ((hybrid, none, ct, pk), hd) ↦ absurd (ground arith)
          | inl ((hybrid, some material, ct, pk), hd) ↦ record {
            binding = binding;
            hybrid = hybrid;
            material = material;
            bound = hb;
            derived = ground arith;
            tagged = ground arith;
            signed = ground arith;
            left = ground arith;
          }
        ]
      ]
    where
      binding_of : Bytes → Outcome Bytes
      binding_of sk =
          handshake_binding p mk xk (identity_fingerprint p k_vk)
            (identity_fingerprint p (p.ml_dsa_verifying_key sk)) info

  -- A signature that the wrapper made, the wrapper verifies.
  pub verify-sign :
      (sk msg context : Bytes) {signature : Bytes}
      → IsSignature p
      → ml_dsa_sign_with_context p sk msg context ≡ ok signature
      → ml_dsa_verify_with_context p (p.ml_dsa_verifying_key sk) msg context signature ≡ ok tt
  unfolding ml_dsa_sign_with_context ml_dsa_verify_with_context
  verify-sign sk msg context {signature} sg h = elim (Option-cases (p.ml_dsa_sign sk msg context)) [
    | inl failed ↦ absurd (ground arith)
    | inr (s, hs) ↦ ground (arith, sg.signed_verifies sk msg context hs)
  ]
