-- ===== src/Crypto/Examples/Handshake.antt =====
-- The handshakes of session_manager.rs, run with the primitives of Toy.
use shawn_core_libraries.Base.{
  true, false, List, none, some, ok, err, ◌≡◌, refl, [], ◌∷◌, ◌++◌, replicate, Bytes,
}
use shawn_core_libraries.Crypto.Error.{Outcome, key_confirmation_failed}
use shawn_core_libraries.Crypto.Toy.{toy, total, seal, same, toy-ComparesBytes, toy-IsKeyExchange}
use shawn_core_libraries.Crypto.Session.State.{
  SessionManager, PendingAuthentication, new, zeroize_session,
}
use shawn_core_libraries.Crypto.Session.Handshake.{
  install, initiate_handshake, encapsulate_for_peer, encapsulate_inner, finalize_handshake,
  encapsulated, derive_for_peer, handshake_transcript,
}
use shawn_core_libraries.Crypto.Wrappers.{
  ml_kem_keygen, ml_kem_encapsulate, ml_kem_decapsulate, x25519_keygen, x25519_diffie_hellman,
  ml_dsa_sign_with_context, ml_dsa_verify_with_context,
}
use shawn_core_libraries.Crypto.Kdf.{
  confirmation_info, derive_hybrid_key, derive_hybrid_key_with_confirmation,
}
use shawn_core_libraries.Base.Encoding.{all_equal, to_be_bytes}
use shawn_core_libraries.Crypto.Auth.{
  identity_fingerprint, handshake_binding, transcript_hash, keygen_digest, confirmation_tag,
  confirmation_tags_equal, context_keygen_side, confirm_label_keygen_side,
}
use shawn_core_libraries.Crypto.Aead.{hmac_sha384, verify_tag_constant_time}
use shawn_core_libraries.Crypto.Session.Authenticated.{
  encapsulator_proof, encapsulate_authenticated, keygen_proof, authenticated_secrets,
  check_confirmation, complete_authenticated_finalize, finalize_authenticated, confirm_peer,
}
use shawn_core_libraries.Crypto.Session.Confirmation.{
  Finalized, finalize_authenticated_sound, confirm_peer_sound,
}
use shawn_core_libraries.Crypto.Session.Unconfirmed.{
  Use, seals, opens, confirms as confirms_with, used_early, encapsulate_authenticated-used_early,
}
use shawn_core_libraries.Crypto.Session.Agreement.{Paired, handshake_agrees}

abbrev mk : Bytes
mk = replicate 64 1

abbrev xk : Bytes
xk = replicate 32 1

abbrev ct : Bytes
ct = replicate 32 2

abbrev salt : Bytes
salt = 5 ∷ 6 ∷ []

abbrev initiated : SessionManager
initiated = record new { ml_kem_dk = some mk; x25519_sk = some xk }

abbrev encapsulating : SessionManager
encapsulating = (encapsulate_for_peer toy new mk xk (replicate 64 2) salt [] [] []).1

handshake_agrees_example :
    let (r, k) = finalize_handshake toy initiated ct ct salt [] in
    (r ≡ ok tt) × Paired k encapsulating
unfolding initiate_handshake zeroize_session ml_kem_keygen x25519_keygen encapsulate_for_peer
    encapsulate_inner encapsulated derive_for_peer handshake_transcript ml_kem_encapsulate
    x25519_diffie_hellman derive_hybrid_key install all_equal
handshake_agrees_example =
    handshake_agrees toy new new (replicate 96 1) (replicate 64 2) salt [] [] [] toy-IsKeyExchange
      refl refl refl

-- The long-term keys of the key-generating and of the encapsulating side.
abbrev k_sk : Bytes
k_sk = 11 ∷ []

abbrev e_sk : Bytes
e_sk = 12 ∷ []

abbrev Sent : Type 0
Sent = Outcome (Unit {0}) × SessionManager × Bytes × Bytes × Bytes × Bytes

-- What the encapsulating side sends in an authenticated handshake.
abbrev message : Sent
message = encapsulate_authenticated toy new e_sk k_sk mk xk (replicate 64 2) salt [] [] [] [] []

abbrev peer_session : SessionManager
peer_session = message.1

abbrev peer_signature : Bytes
peer_signature = seal

abbrev peer_tag : Bytes
peer_tag = message.5

sends : message ≡ (ok tt, peer_session, ct, ct, peer_signature, peer_tag)
unfolding all_equal encapsulate_authenticated encapsulate_inner encapsulated derive_for_peer
    ml_kem_encapsulate x25519_keygen x25519_diffie_hellman derive_hybrid_key_with_confirmation
    handshake_binding encapsulator_proof ml_dsa_sign_with_context seal confirmation_tag hmac_sha384
    install zeroize_session
sends = refl

abbrev answered : Outcome (Unit {0}) × SessionManager × Bytes × Bytes
answered =
    finalize_authenticated toy initiated k_sk e_sk ct ct peer_signature peer_tag salt [] [] []

answers : answered ≡ (ok tt, answered.1, answered.2, answered.3)
unfolding finalize_authenticated encapsulate_authenticated encapsulate_inner encapsulated
    derive_for_peer ml_kem_encapsulate x25519_keygen x25519_diffie_hellman all_equal
    derive_hybrid_key_with_confirmation handshake_binding encapsulator_proof confirmation_tag
    hmac_sha384 ml_dsa_sign_with_context ml_dsa_verify_with_context seal same
    complete_authenticated_finalize authenticated_secrets ml_kem_decapsulate check_confirmation
    confirmation_tags_equal verify_tag_constant_time keygen_proof confirmation_info
    handshake_transcript to_be_bytes identity_fingerprint transcript_hash
answers = refl

finalize_authenticated_sound_example :
    Finalized toy initiated k_sk e_sk ct ct peer_signature peer_tag salt [] answered.1
finalize_authenticated_sound_example =
    finalize_authenticated_sound toy initiated k_sk e_sk ct ct peer_signature peer_tag salt [] [] []
      toy-ComparesBytes answers

-- An established session whose peer has not been confirmed.
abbrev awaiting : SessionManager
awaiting = record new {
  tx_key = some (replicate 64 3);
  rx_key = some (replicate 64 4);
  is_established = true;
  pending_auth =
      some (record { digest = 1 ∷ []; peer_identity = 2 ∷ []; confirmation_key = 3 ∷ [] });
}

-- A message with the right signature and no tag.
abbrev wiped : Outcome (Unit {0}) × SessionManager × Bytes × Bytes
wiped = finalize_authenticated toy initiated k_sk e_sk ct ct seal [] salt [] [] []

wipes : wiped ≡ (err key_confirmation_failed, wiped.1, wiped.2, wiped.3)
unfolding finalize_authenticated handshake_binding ml_dsa_verify_with_context same seal
    complete_authenticated_finalize authenticated_secrets ml_kem_decapsulate x25519_diffie_hellman
    all_equal derive_hybrid_key_with_confirmation check_confirmation confirmation_tag
    confirmation_tags_equal
wipes = refl

-- A session bound to the identity of the key-generating side, and the tag that it expects.
abbrev bound : SessionManager
bound = record awaiting {
  pending_auth = some (record {
    digest = 1 ∷ [];
    peer_identity = identity_fingerprint toy k_sk;
    confirmation_key = 3 ∷ [];
  });
}

abbrev proof_tag : Bytes
proof_tag = 3 ∷ total (confirm_label_keygen_side ++ 1 ∷ []) ∷ replicate 46 0

abbrev confirmed : Outcome (Unit {0}) × SessionManager
confirmed = confirm_peer toy bound k_sk seal proof_tag

confirms : confirmed ≡ (ok tt, confirmed.1)
unfolding confirm_peer confirmation_tags_equal same identity_fingerprint ml_dsa_verify_with_context
    seal confirmation_tag
confirms = refl

confirm_peer_sound_example :
    (q : PendingAuthentication) × (bound.pending_auth ≡ some q)
    × (identity_fingerprint toy k_sk ≡ q.peer_identity)
    × (ml_dsa_verify_with_context toy k_sk
          (keygen_digest toy q.digest proof_tag)
          context_keygen_side
          seal
        ≡ ok tt)
    × (confirmation_tag toy q.confirmation_key confirm_label_keygen_side q.digest ≡ ok proof_tag)
    × (confirmed.1 ≡ record bound { pending_auth = none })
confirm_peer_sound_example =
    confirm_peer_sound toy bound k_sk seal proof_tag toy-ComparesBytes confirms

-- A packet each way, a confirmation without a tag, and a packet after it.
abbrev uses : List Use
uses =
    seals [] (1 ∷ []) (0 ∷ []) [] []
    ∷ opens [] (1 ∷ []) [] [] (0 ∷ [])
    ∷ confirms_with k_sk seal []
    ∷ seals [] (1 ∷ []) (0 ∷ []) [] []
    ∷ []

encapsulate_authenticated-used_early_example : used_early toy peer_session uses ≡ false
encapsulate_authenticated-used_early_example =
    encapsulate_authenticated-used_early toy new e_sk k_sk mk xk (replicate 64 2) salt [] [] [] []
      [] uses sends
