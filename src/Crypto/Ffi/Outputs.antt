-- ===== src/Crypto/Ffi/Outputs.antt =====
-- When the handshake calls of ffi.rs write their outputs.
use shawn_core_libraries.Base.{ℕ, inl, inr, refl, not, [], ◌∷◌, Result-cases, replicate, arith}
use shawn_core_libraries.Crypto.Primitives.{Primitives}
use shawn_core_libraries.Crypto.Session.Handshake.{initiate_handshake, encapsulate_for_peer}
use shawn_core_libraries.Crypto.Session.Authenticated.{
  encapsulate_authenticated, finalize_authenticated,
}
use shawn_core_libraries.Crypto.Ffi.{
  invalid_state, invalid_length, from_error, Layout, Host, read, set_manager, any_of, is_null,
  null_slice, range_ok, ptr_is_aligned, public_key_1024, ciphertext_1024, x25519_public,
  public_key_87, signing_key_87, signature_87, writable_regions_overlap,
}
use shawn_core_libraries.Crypto.Ffi.Handshake.{
  session_manager_initiate_handshake, session_manager_encapsulate_for_peer, manager_misaligned,
  key_misaligned, x25519_misaligned, ciphertext_misaligned, encapsulate_overlaps,
}
use shawn_core_libraries.Crypto.Ffi.Authenticated.{
  Arguments, session_manager_encapsulate_authenticated_v2,
  session_manager_finalize_authenticated_v2, slices_rejected, encapsulate_regions, finalize_regions,
}
use shawn_core_libraries.Crypto.Ffi.Failure.{
  WritesOnSuccess, fails, rejected, stored, guarded, after_success, after_failure,
  initiate_handshake_error, encapsulate_for_peer_error, encapsulate_authenticated_error,
  finalize_authenticated_failure,
}

module _ (layout : Layout) (p : Primitives) (host : Host) where
  initiates :
      (manager entropy out_ml_kem_pk out_x25519_pk : ℕ)
      → WritesOnSuccess layout host manager (
          session_manager_initiate_handshake layout p host manager entropy out_ml_kem_pk
            out_x25519_pk)
  unfolding session_manager_initiate_handshake
  initiates manager entropy out_ml_kem_pk out_x25519_pk =
      let r = initiate_handshake p (host.managers manager) (read host.memory entropy 96) in
      elim (Result-cases r.0) [
        | inl ((mk, xk), made) ↦ after_success layout host manager _ (ground arith)
        | inr (e, failed) ↦
            after_failure layout host manager r.1 _
              (inl (initiate_handshake_error p (host.managers manager) _ failed)) (ground arith)
      ]

  encapsulates :
      (manager peer_ml_kem_pk peer_x25519_pk entropy salt salt_len info info_len out_ct
        out_my_x25519_pk : ℕ)
      → WritesOnSuccess layout host manager (
          session_manager_encapsulate_for_peer layout p host manager peer_ml_kem_pk peer_x25519_pk
            entropy salt salt_len info info_len out_ct out_my_x25519_pk)
  unfolding session_manager_encapsulate_for_peer
  encapsulates manager peer_ml_kem_pk peer_x25519_pk entropy salt salt_len info info_len out_ct
        out_my_x25519_pk =
      let r =
        encapsulate_for_peer p (host.managers manager) (host.objects peer_ml_kem_pk)
          (host.objects peer_x25519_pk) (read host.memory entropy 64)
          (read host.memory salt salt_len) (read host.memory info info_len) (replicate 1568 0)
          (replicate 32 0) in
      elim (Result-cases r.0) [
        | inl (u, made) ↦ after_success layout host manager _ (ground arith)
        | inr (e, failed) ↦ rw failed (
            guarded (WritesOnSuccess layout host manager)
              (any_of (
                is_null manager
                ∷ is_null peer_ml_kem_pk
                ∷ is_null peer_x25519_pk
                ∷ is_null entropy
                ∷ is_null out_ct
                ∷ is_null out_my_x25519_pk
                ∷ []))
              (any_of (
                manager_misaligned layout manager
                ∷ key_misaligned layout peer_ml_kem_pk
                ∷ x25519_misaligned layout peer_x25519_pk
                ∷ ciphertext_misaligned layout out_ct
                ∷ x25519_misaligned layout out_my_x25519_pk
                ∷ []))
              (any_of (
                null_slice salt salt_len
                ∷ null_slice info info_len
                ∷ not (range_ok salt salt_len)
                ∷ not (range_ok info info_len)
                ∷ []))
              (any_of (
                encapsulate_overlaps layout manager peer_ml_kem_pk peer_x25519_pk entropy salt
                  salt_len info info_len out_ct out_my_x25519_pk))
              (invalid_state, host) (invalid_state, host) (invalid_length, host)
              (invalid_length, host)
              {r = (from_error e, record host { managers = set_manager host.managers manager r.1 })}
              (fails (rejected layout host manager refl))
              (fails (rejected layout host manager refl))
              (fails (rejected layout host manager refl))
              (fails (rejected layout host manager refl))
              (fails (
                stored layout host manager r.1 refl (
                  inl
                    (encapsulate_for_peer_error p (host.managers manager) _ _ _ _ _ _ _ failed)))))
      ]

  encapsulates_authenticated :
      (a : Arguments)
      → WritesOnSuccess layout host a.manager
          (session_manager_encapsulate_authenticated_v2 layout p host a)
  unfolding session_manager_encapsulate_authenticated_v2
  encapsulates_authenticated a =
      let r =
        encapsulate_authenticated p (host.managers a.manager) (host.objects a.own_signing_key)
          (host.objects a.peer_verifying_key) (host.objects a.peer_ml_kem_pk)
          (host.objects a.peer_x25519_pk) (read host.memory a.entropy 64)
          (read host.memory a.salt a.salt_len) (read host.memory a.app_info a.app_info_len)
          (replicate 1568 0) (replicate 32 0) (replicate 4627 0) (replicate 48 0) in
      elim (Result-cases r.0) [
        | inl (u, made) ↦ after_success layout host a.manager _ (ground arith)
        | inr (e, failed) ↦ rw failed (
            guarded (WritesOnSuccess layout host a.manager)
              (any_of (
                is_null a.manager
                ∷ is_null a.own_signing_key
                ∷ is_null a.peer_verifying_key
                ∷ is_null a.peer_ml_kem_pk
                ∷ is_null a.peer_x25519_pk
                ∷ is_null a.entropy
                ∷ is_null a.out_ct
                ∷ is_null a.out_my_x25519_pk
                ∷ is_null a.out_signature
                ∷ is_null a.out_confirmation
                ∷ []))
              (any_of (
                not (ptr_is_aligned layout.manager_align a.manager)
                ∷ not (ptr_is_aligned (layout.align_of signing_key_87) a.own_signing_key)
                ∷ not (ptr_is_aligned (layout.align_of public_key_87) a.peer_verifying_key)
                ∷ not (ptr_is_aligned (layout.align_of public_key_1024) a.peer_ml_kem_pk)
                ∷ not (ptr_is_aligned (layout.align_of x25519_public) a.peer_x25519_pk)
                ∷ not (ptr_is_aligned (layout.align_of ciphertext_1024) a.out_ct)
                ∷ not (ptr_is_aligned (layout.align_of x25519_public) a.out_my_x25519_pk)
                ∷ not (ptr_is_aligned (layout.align_of signature_87) a.out_signature)
                ∷ []))
              (slices_rejected a) (writable_regions_overlap (encapsulate_regions layout a))
              (invalid_state, host) (invalid_state, host) (invalid_length, host)
              (invalid_length, host)
              {r = (
                from_error e,
                record host { managers = set_manager host.managers a.manager r.1 },
              )}
              (fails (rejected layout host a.manager refl))
              (fails (rejected layout host a.manager refl))
              (fails (rejected layout host a.manager refl))
              (fails (rejected layout host a.manager refl))
              (fails (
                stored layout host a.manager r.1 refl (
                  encapsulate_authenticated_error p (host.managers a.manager) _ _ _ _ _ _ _ _ _ _ _
                    failed))))
      ]

  finalizes_authenticated :
      (a : Arguments)
      → WritesOnSuccess layout host a.manager
          (session_manager_finalize_authenticated_v2 layout p host a)
  unfolding session_manager_finalize_authenticated_v2
  finalizes_authenticated a =
      let r =
        finalize_authenticated p (host.managers a.manager) (host.objects a.own_signing_key)
          (host.objects a.peer_verifying_key) (host.objects a.peer_x25519_pk)
          (host.objects a.ml_kem_ct) (host.objects a.peer_signature)
          (read host.memory a.peer_confirmation 48) (read host.memory a.salt a.salt_len)
          (read host.memory a.app_info a.app_info_len) (replicate 4627 0) (replicate 48 0) in
      elim (Result-cases r.0) [
        | inl (u, made) ↦ after_success layout host a.manager _ (ground arith)
        | inr (e, failed) ↦ rw failed (
            guarded (WritesOnSuccess layout host a.manager)
              (any_of (
                is_null a.manager
                ∷ is_null a.own_signing_key
                ∷ is_null a.peer_verifying_key
                ∷ is_null a.peer_x25519_pk
                ∷ is_null a.ml_kem_ct
                ∷ is_null a.peer_signature
                ∷ is_null a.peer_confirmation
                ∷ is_null a.out_signature
                ∷ is_null a.out_confirmation
                ∷ []))
              (any_of (
                not (ptr_is_aligned layout.manager_align a.manager)
                ∷ not (ptr_is_aligned (layout.align_of signing_key_87) a.own_signing_key)
                ∷ not (ptr_is_aligned (layout.align_of public_key_87) a.peer_verifying_key)
                ∷ not (ptr_is_aligned (layout.align_of x25519_public) a.peer_x25519_pk)
                ∷ not (ptr_is_aligned (layout.align_of ciphertext_1024) a.ml_kem_ct)
                ∷ not (ptr_is_aligned (layout.align_of signature_87) a.peer_signature)
                ∷ not (ptr_is_aligned (layout.align_of signature_87) a.out_signature)
                ∷ []))
              (slices_rejected a) (writable_regions_overlap (finalize_regions layout a))
              (invalid_state, host) (invalid_state, host) (invalid_length, host)
              (invalid_length, host)
              {r = (
                from_error e,
                record host { managers = set_manager host.managers a.manager r.1 },
              )}
              (fails (rejected layout host a.manager refl))
              (fails (rejected layout host a.manager refl))
              (fails (rejected layout host a.manager refl))
              (fails (rejected layout host a.manager refl))
              (fails (
                stored layout host a.manager r.1 refl (
                  finalize_authenticated_failure p (host.managers a.manager) _ _ _ _ _ _ _ _ _ _
                    failed))))
      ]

  -- Each handshake call of the C interface that has outputs, whatever its arguments and the state of
  -- the session: it answers `Success`, or it has changed no byte outside the manager object, no key,
  -- ciphertext or signature object and no other manager, and the manager is as before or wiped.
  pub handshake_calls-WritesOnSuccess :
      (a : Arguments)
      → WritesOnSuccess layout host a.manager (
          session_manager_initiate_handshake layout p host a.manager a.entropy a.peer_ml_kem_pk
            a.out_my_x25519_pk)
        × WritesOnSuccess layout host a.manager (
            session_manager_encapsulate_for_peer layout p host a.manager a.peer_ml_kem_pk
              a.peer_x25519_pk a.entropy a.salt a.salt_len a.app_info a.app_info_len a.out_ct
              a.out_my_x25519_pk)
        × WritesOnSuccess layout host a.manager
            (session_manager_encapsulate_authenticated_v2 layout p host a)
        × WritesOnSuccess layout host a.manager
            (session_manager_finalize_authenticated_v2 layout p host a)
  handshake_calls-WritesOnSuccess a = (
    initiates a.manager a.entropy a.peer_ml_kem_pk a.out_my_x25519_pk,
    encapsulates a.manager a.peer_ml_kem_pk a.peer_x25519_pk a.entropy a.salt a.salt_len a.app_info
        a.app_info_len a.out_ct a.out_my_x25519_pk,
    encapsulates_authenticated a,
    finalizes_authenticated a,
  )
