-- ===== src/Crypto/Session/Handshake.antt =====
-- The unauthenticated hybrid handshake of session_manager.rs. Out-parameters are buffers: each
-- function is given their contents and returns them. Locals that are wiped before they go out of
-- scope leave no trace.
use shawn_core_libraries.Base.{
  Bool, true, false, ◌||◌, Option, none, some, ok, err, if◌then◌else◌, ◌++◌, take, drop, Bytes,
  ◌>>=◌,
}
use shawn_core_libraries.Base.Encoding.{all_equal}
use shawn_core_libraries.Crypto.Error.{Outcome, invalid_state}
use shawn_core_libraries.Crypto.Primitives.{Primitives}
use shawn_core_libraries.Crypto.Wrappers.{
  ml_kem_keygen, ml_kem_encapsulate, ml_kem_decapsulate, x25519_keygen, x25519_diffie_hellman,
}
use shawn_core_libraries.Crypto.Kdf.{
  codes, confirmation_info, derive_hybrid_key, derive_hybrid_key_with_confirmation,
}
use shawn_core_libraries.Crypto.Session.State.{SessionManager, zeroize_session}
use shawn_core_libraries.Crypto.Session.Packet.{key_checksum}

-- All zero or all `0xFF`.
abbrev pub is_uniform : Bytes → Bool
is_uniform entropy = all_equal 0 entropy || all_equal 0xFF entropy

-- `[..32] ++ [96..]` and `[32..96]` of the 128 derived bytes: the transmit and the receive key of
-- the key-generating side, and the other way round on the encapsulating side.
abbrev pub outer_key : Bytes → Bytes
outer_key hybrid_key = take 32 hybrid_key ++ drop 96 hybrid_key

abbrev pub inner_key : Bytes → Bytes
inner_key hybrid_key = take 64 (drop 32 hybrid_key)

-- `zeroize_session`, then the directional keys and their checksums.
unfoldable pub install : SessionManager → (tx_key rx_key : Bytes) → SessionManager
unfolding zeroize_session
install s tx_key rx_key =
    let wiped = zeroize_session s in
    record wiped {
      ml_kem_dk = none;
      x25519_sk = none;
      tx_key = some tx_key;
      rx_key = some rx_key;
      tx_key_checksum = key_checksum tx_key;
      rx_key_checksum = key_checksum rx_key;
      is_established = true;
    }

module _ (p : Primitives) where
  unfoldable pub handshake_transcript :
      (ciphertext sender_public_key application_info : Bytes) → Bytes
  handshake_transcript ciphertext sender_public_key application_info = p.sha384 (
      codes "ShawnCore-v1.3-hybrid-handshake"
      ++ (ciphertext ++ (sender_public_key ++ application_info)))

  -- The public keys, ML-KEM first.
  unfoldable pub initiate_handshake :
      SessionManager → (entropy : Bytes) → Outcome (Bytes × Bytes) × SessionManager
  unfolding zeroize_session
  initiate_handshake s entropy =
      if is_uniform entropy
      then (err invalid_state, s)
      else elim (ml_kem_keygen p (take 64 entropy)) [
        | err e ↦ (err e, s)
        | ok (ml_kem_pk, ml_kem_dk) ↦
            let (x25519_pk, x25519_sk) = x25519_keygen p (take 32 (drop 64 entropy)) in
            let wiped = zeroize_session s in
            (
              ok (ml_kem_pk, x25519_pk),
              record wiped { ml_kem_dk = some ml_kem_dk; x25519_sk = some x25519_sk },
            )
      ]

  -- The two shared secrets and the key derivation, in the order in which they may fail.
  unfoldable pub hybrid_secrets :
      (ml_kem_dk x25519_sk peer_x25519_pk ml_kem_ct salt info : Bytes) → Outcome Bytes
  hybrid_secrets ml_kem_dk x25519_sk peer_x25519_pk ml_kem_ct salt info = do
    pq_secret ← ml_kem_decapsulate p ml_kem_dk ml_kem_ct
    classical_secret ← x25519_diffie_hellman p x25519_sk peer_x25519_pk
    (derive_hybrid_key p pq_secret classical_secret salt
        (handshake_transcript ml_kem_ct peer_x25519_pk info)).0

  -- A missing key changes nothing; a failure after that wipes the session.
  unfoldable pub finalize_handshake :
      SessionManager
      → (peer_x25519_pk ml_kem_ct salt info : Bytes) → Outcome (Unit {0}) × SessionManager
  unfolding hybrid_secrets install
  finalize_handshake s peer_x25519_pk ml_kem_ct salt info = elim s.ml_kem_dk [
    | none ↦ (err invalid_state, s)
    | some dk ↦ elim s.x25519_sk [
      | none ↦ (err invalid_state, s)
      | some sk ↦ elim (hybrid_secrets dk sk peer_x25519_pk ml_kem_ct salt info) [
        | err e ↦ (err e, zeroize_session s)
        | ok hybrid_key ↦ (ok tt, install s (outer_key hybrid_key) (inner_key hybrid_key))
      ]
    ]
  ]

  -- The session keys of `encapsulate_inner`, with the confirmation material if it is wanted.
  unfoldable pub derive_for_peer :
      (pq_secret classical_secret salt transcript : Bytes)
      → (want_confirmation : Bool) → Outcome (Bytes × Option Bytes)
  derive_for_peer pq_secret classical_secret salt transcript true = do
    (session, material) ←
        (derive_hybrid_key_with_confirmation p pq_secret classical_secret salt transcript
          (confirmation_info transcript)).0
    ok (session, some material)
  derive_for_peer pq_secret classical_secret salt transcript false = do
    session ← (derive_hybrid_key p pq_secret classical_secret salt transcript).0
    ok (session, none)

  -- What `encapsulate_inner` computes before it touches the session: the derived bytes, the
  -- confirmation material, the ciphertext and the own X25519 public key.
  unfoldable pub encapsulated :
      (peer_ml_kem_pk peer_x25519_pk entropy salt info : Bytes)
      → (want_confirmation : Bool) → Outcome (Bytes × Option Bytes × Bytes × Bytes)
  unfolding derive_for_peer
  encapsulated peer_ml_kem_pk peer_x25519_pk entropy salt info want_confirmation = do
    (pq_secret, ct) ← ml_kem_encapsulate p peer_ml_kem_pk (take 32 entropy)
    let (my_x25519_pk, my_x25519_sk) = x25519_keygen p (take 32 (drop 32 entropy))
    classical_secret ← x25519_diffie_hellman p my_x25519_sk peer_x25519_pk
    (hybrid_key, confirmation) ←
        derive_for_peer pq_secret classical_secret salt (handshake_transcript ct my_x25519_pk info)
          want_confirmation
    ok (hybrid_key, confirmation, ct, my_x25519_pk)

  -- A failure changes neither the session nor the buffers.
  unfoldable pub encapsulate_inner :
      SessionManager
      → (peer_ml_kem_pk peer_x25519_pk entropy salt info out_ct out_pk : Bytes)
      → (want_confirmation : Bool) → Outcome (Option Bytes) × SessionManager × Bytes × Bytes
  unfolding encapsulated install
  encapsulate_inner s peer_ml_kem_pk peer_x25519_pk entropy salt info out_ct out_pk
        want_confirmation =
      if is_uniform entropy
      then (err invalid_state, s, out_ct, out_pk)
      else elim (encapsulated peer_ml_kem_pk peer_x25519_pk entropy salt info want_confirmation) [
        | err e ↦ (err e, s, out_ct, out_pk)
        | ok (hybrid_key, confirmation, ct, pk) ↦
            (ok confirmation, install s (inner_key hybrid_key) (outer_key hybrid_key), ct, pk)
      ]

  unfoldable pub encapsulate_for_peer :
      SessionManager
      → (peer_ml_kem_pk peer_x25519_pk entropy salt info out_ct out_pk : Bytes)
      → Outcome (Unit {0}) × SessionManager × Bytes × Bytes
  unfolding encapsulate_inner
  encapsulate_for_peer s peer_ml_kem_pk peer_x25519_pk entropy salt info out_ct out_pk =
      let (r, s', ct, pk) =
        encapsulate_inner s peer_ml_kem_pk peer_x25519_pk entropy salt info out_ct out_pk false in
      (r >>= λ confirmation. ok tt, s', ct, pk)
