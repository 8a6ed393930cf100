-- ===== src/Crypto/Ffi/Handshake.antt =====
-- The calls of the C interface (ffi.rs) for the handshake without authentication:
-- shawncore_crypto_session_manager_initiate_handshake, finalize_handshake and encapsulate_for_peer.
use shawn_core_libraries.Base.{ℕ, Bool, not, List, [], ◌∷◌, ok, err, if◌then◌else◌, replicate}
use shawn_core_libraries.Crypto.Primitives.{Primitives}
use shawn_core_libraries.Crypto.Session.Handshake.{
  initiate_handshake, finalize_handshake, encapsulate_for_peer,
}
use shawn_core_libraries.Crypto.Ffi.{
  ShawncoreCryptoErr, success, invalid_state, invalid_length, from_error, status, Layout, Host,
  public_key_1024, ciphertext_1024, x25519_public, read, set_manager, set_object, is_null,
  ptr_is_aligned, range_ok, ranges_overlap, any_of, null_slice,
}

module _ (layout : Layout) where
  -- `!ptr_is_aligned(manager)`, and for the other types.
  abbrev pub manager_misaligned : ℕ → Bool
  manager_misaligned manager = not (ptr_is_aligned layout.manager_align manager)

  abbrev pub key_misaligned : ℕ → Bool
  key_misaligned ptr = not (ptr_is_aligned (layout.align_of public_key_1024) ptr)

  abbrev pub ciphertext_misaligned : ℕ → Bool
  ciphertext_misaligned ptr = not (ptr_is_aligned (layout.align_of ciphertext_1024) ptr)

  abbrev pub x25519_misaligned : ℕ → Bool
  x25519_misaligned ptr = not (ptr_is_aligned (layout.align_of x25519_public) ptr)

  abbrev initiate_overlaps : (manager entropy out_ml_kem_pk out_x25519_pk : ℕ) → List Bool
  initiate_overlaps manager entropy out_ml_kem_pk out_x25519_pk =
      let pk_size = layout.size_of public_key_1024 in
      let x25519_size = layout.size_of x25519_public in
      ranges_overlap out_ml_kem_pk pk_size out_x25519_pk x25519_size
      ∷ ranges_overlap manager layout.manager_size out_ml_kem_pk pk_size
      ∷ ranges_overlap manager layout.manager_size out_x25519_pk x25519_size
      ∷ ranges_overlap manager layout.manager_size entropy 96
      ∷ ranges_overlap entropy 96 out_ml_kem_pk pk_size
      ∷ ranges_overlap entropy 96 out_x25519_pk x25519_size
      ∷ []

  abbrev finalize_overlaps :
      (manager peer_x25519_pk ml_kem_ct salt salt_len info info_len : ℕ) → List Bool
  finalize_overlaps manager peer_x25519_pk ml_kem_ct salt salt_len info info_len =
      ranges_overlap manager layout.manager_size peer_x25519_pk (layout.size_of x25519_public)
      ∷ ranges_overlap manager layout.manager_size ml_kem_ct (layout.size_of ciphertext_1024)
      ∷ ranges_overlap manager layout.manager_size salt salt_len
      ∷ ranges_overlap manager layout.manager_size info info_len
      ∷ []

  abbrev pub encapsulate_overlaps :
      (manager peer_ml_kem_pk peer_x25519_pk entropy salt salt_len info info_len out_ct
        out_my_x25519_pk : ℕ)
      → List Bool
  encapsulate_overlaps manager peer_ml_kem_pk peer_x25519_pk entropy salt salt_len info info_len
        out_ct out_my_x25519_pk =
      let ct_size = layout.size_of ciphertext_1024 in
      let pk_size = layout.size_of public_key_1024 in
      let x25519_size = layout.size_of x25519_public in
      ranges_overlap out_ct ct_size out_my_x25519_pk x25519_size
      ∷ ranges_overlap out_ct ct_size peer_ml_kem_pk pk_size
      ∷ ranges_overlap out_ct ct_size peer_x25519_pk x25519_size
      ∷ ranges_overlap out_ct ct_size manager layout.manager_size
      ∷ ranges_overlap out_ct ct_size entropy 64
      ∷ ranges_overlap out_ct ct_size salt salt_len
      ∷ ranges_overlap out_ct ct_size info info_len
      ∷ ranges_overlap out_my_x25519_pk x25519_size peer_ml_kem_pk pk_size
      ∷ ranges_overlap out_my_x25519_pk x25519_size peer_x25519_pk x25519_size
      ∷ ranges_overlap out_my_x25519_pk x25519_size manager layout.manager_size
      ∷ ranges_overlap out_my_x25519_pk x25519_size entropy 64
      ∷ ranges_overlap out_my_x25519_pk x25519_size salt salt_len
      ∷ ranges_overlap out_my_x25519_pk x25519_size info info_len
      ∷ ranges_overlap manager layout.manager_size peer_ml_kem_pk pk_size
      ∷ ranges_overlap manager layout.manager_size peer_x25519_pk x25519_size
      ∷ ranges_overlap manager layout.manager_size entropy 64
      ∷ ranges_overlap manager layout.manager_size salt salt_len
      ∷ ranges_overlap manager layout.manager_size info info_len
      ∷ []

  module _ (p : Primitives) where
    unfoldable pub session_manager_initiate_handshake :
        Host → (manager entropy out_ml_kem_pk out_x25519_pk : ℕ) → ShawncoreCryptoErr × Host
    session_manager_initiate_handshake host manager entropy out_ml_kem_pk out_x25519_pk =
        if any_of
          (is_null manager ∷ is_null entropy ∷ is_null out_ml_kem_pk ∷ is_null out_x25519_pk ∷ [])
        then (invalid_state, host)
        else if any_of (
            manager_misaligned manager
            ∷ key_misaligned out_ml_kem_pk
            ∷ x25519_misaligned out_x25519_pk
            ∷ [])
        then (invalid_state, host)
        else if any_of (initiate_overlaps manager entropy out_ml_kem_pk out_x25519_pk)
        then (invalid_length, host)
        else let (r, s) =
            initiate_handshake p (host.managers manager) (read host.memory entropy 96) in
          let host' = record host { managers = set_manager host.managers manager s } in
          elim r [
            | ok (ml_kem_pk, x25519_pk) ↦ (
              success,
              record host' {
                objects =
                    set_object (set_object host.objects out_ml_kem_pk ml_kem_pk) out_x25519_pk
                      x25519_pk;
              },
            )
            | err e ↦ (from_error e, host')
          ]

    unfoldable pub session_manager_finalize_handshake :
        Host
        → (manager peer_x25519_pk ml_kem_ct salt salt_len info info_len : ℕ)
        → ShawncoreCryptoErr × Host
    session_manager_finalize_handshake host manager peer_x25519_pk ml_kem_ct salt salt_len info
          info_len =
        if any_of (is_null manager ∷ is_null peer_x25519_pk ∷ is_null ml_kem_ct ∷ [])
        then (invalid_state, host)
        else if any_of (
            manager_misaligned manager
            ∷ x25519_misaligned peer_x25519_pk
            ∷ ciphertext_misaligned ml_kem_ct
            ∷ [])
        then (invalid_state, host)
        else if any_of (
            null_slice salt salt_len
            ∷ null_slice info info_len
            ∷ not (range_ok salt salt_len)
            ∷ not (range_ok info info_len)
            ∷ [])
        then (invalid_length, host)
        else if any_of
            (finalize_overlaps manager peer_x25519_pk ml_kem_ct salt salt_len info info_len)
        then (invalid_length, host)
        else let (r, s) =
            finalize_handshake p (host.managers manager) (host.objects peer_x25519_pk)
              (host.objects ml_kem_ct) (read host.memory salt salt_len)
              (read host.memory info info_len) in
          (status r, record host { managers = set_manager host.managers manager s })

    -- The outputs are locals first, and are written on success only.
    unfoldable pub session_manager_encapsulate_for_peer :
        Host
        → (manager peer_ml_kem_pk peer_x25519_pk entropy salt salt_len info info_len out_ct
            out_my_x25519_pk : ℕ)
        → ShawncoreCryptoErr × Host
    session_manager_encapsulate_for_peer host manager peer_ml_kem_pk peer_x25519_pk entropy salt
          salt_len info info_len out_ct out_my_x25519_pk =
        if any_of (
          is_null manager
          ∷ is_null peer_ml_kem_pk
          ∷ is_null peer_x25519_pk
          ∷ is_null entropy
          ∷ is_null out_ct
          ∷ is_null out_my_x25519_pk
          ∷ [])
        then (invalid_state, host)
        else if any_of (
            manager_misaligned manager
            ∷ key_misaligned peer_ml_kem_pk
            ∷ x25519_misaligned peer_x25519_pk
            ∷ ciphertext_misaligned out_ct
            ∷ x25519_misaligned out_my_x25519_pk
            ∷ [])
        then (invalid_state, host)
        else if any_of (
            null_slice salt salt_len
            ∷ null_slice info info_len
            ∷ not (range_ok salt salt_len)
            ∷ not (range_ok info info_len)
            ∷ [])
        then (invalid_length, host)
        else if any_of (
            encapsulate_overlaps manager peer_ml_kem_pk peer_x25519_pk entropy salt salt_len info
              info_len out_ct out_my_x25519_pk)
        then (invalid_length, host)
        else let (r, s, ct, my_pk) =
            encapsulate_for_peer p (host.managers manager) (host.objects peer_ml_kem_pk)
              (host.objects peer_x25519_pk) (read host.memory entropy 64)
              (read host.memory salt salt_len) (read host.memory info info_len) (replicate 1568 0)
              (replicate 32 0) in
          let host' = record host { managers = set_manager host.managers manager s } in
          elim r [
            | ok u ↦ (
              success,
              record host' {
                objects = set_object (set_object host.objects out_ct ct) out_my_x25519_pk my_pk;
              },
            )
            | err e ↦ (from_error e, host')
          ]
