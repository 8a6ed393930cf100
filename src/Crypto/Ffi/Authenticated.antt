-- ===== src/Crypto/Ffi/Authenticated.antt =====
-- The calls of the C interface (ffi.rs) for the authenticated handshake:
-- shawncore_crypto_session_manager_encapsulate_authenticated_v2, finalize_authenticated_v2 and
-- confirm_peer_v2.
use shawn_core_libraries.Base.{
  ℕ, Bool, true, false, not, List, [], ◌∷◌, ok, err, if◌then◌else◌, ltb, replicate,
}
use shawn_core_libraries.Crypto.Primitives.{Primitives}
use shawn_core_libraries.Crypto.Session.Authenticated.{
  encapsulate_authenticated, finalize_authenticated, confirm_peer,
}
use shawn_core_libraries.Crypto.Ffi.{
  ShawncoreCryptoErr, success, invalid_state, invalid_length, from_error, status, Layout, Host,
  Kind, public_key_1024, ciphertext_1024, x25519_public, public_key_87, signing_key_87,
  signature_87, read, write, set_manager, set_object, is_null, ptr_is_aligned, range_ok, any_of,
  null_slice, max_app_info_len, Region, writable_regions_overlap,
}

-- The arguments of the calls; a call reads those that its signature has.
pub record Arguments : Type 0 where
  pub manager : ℕ
  pub own_signing_key : ℕ
  pub peer_verifying_key : ℕ
  pub peer_ml_kem_pk : ℕ
  pub peer_x25519_pk : ℕ
  pub ml_kem_ct : ℕ
  pub peer_signature : ℕ
  pub peer_confirmation : ℕ
  pub entropy : ℕ
  pub salt : ℕ
  pub salt_len : ℕ
  pub app_info : ℕ
  pub app_info_len : ℕ
  pub out_ct : ℕ
  pub out_my_x25519_pk : ℕ
  pub out_signature : ℕ
  pub out_confirmation : ℕ

-- The test on the salt and the application data.
abbrev pub slices_rejected : Arguments → Bool
slices_rejected a = any_of (
    null_slice a.salt a.salt_len
    ∷ null_slice a.app_info a.app_info_len
    ∷ not (range_ok a.salt a.salt_len)
    ∷ ltb max_app_info_len a.app_info_len
    ∷ not (range_ok a.app_info a.app_info_len)
    ∷ [])

module _ (layout : Layout) where
  abbrev misaligned : Kind → ℕ → Bool
  misaligned kind ptr = not (ptr_is_aligned (layout.align_of kind) ptr)

  abbrev manager_region : ℕ → Region
  manager_region ptr = record { address = ptr; len = layout.manager_size; writable = true }

  abbrev input : Kind → ℕ → Region
  input kind ptr = record { address = ptr; len = layout.size_of kind; writable = false }

  abbrev output : Kind → ℕ → Region
  output kind ptr = record { address = ptr; len = layout.size_of kind; writable = true }

  abbrev bytes_in : (ptr len : ℕ) → Region
  bytes_in ptr len = record { address = ptr; len = len; writable = false }

  abbrev bytes_out : (ptr len : ℕ) → Region
  bytes_out ptr len = record { address = ptr; len = len; writable = true }

  abbrev pub encapsulate_regions : Arguments → List Region
  encapsulate_regions a =
      manager_region a.manager
      ∷ input signing_key_87 a.own_signing_key
      ∷ input public_key_87 a.peer_verifying_key
      ∷ input public_key_1024 a.peer_ml_kem_pk
      ∷ input x25519_public a.peer_x25519_pk
      ∷ bytes_in a.entropy 64
      ∷ bytes_in a.salt a.salt_len
      ∷ bytes_in a.app_info a.app_info_len
      ∷ output ciphertext_1024 a.out_ct
      ∷ output x25519_public a.out_my_x25519_pk
      ∷ output signature_87 a.out_signature
      ∷ bytes_out a.out_confirmation 48
      ∷ []

  abbrev pub finalize_regions : Arguments → List Region
  finalize_regions a =
      manager_region a.manager
      ∷ input signing_key_87 a.own_signing_key
      ∷ input public_key_87 a.peer_verifying_key
      ∷ input x25519_public a.peer_x25519_pk
      ∷ input ciphertext_1024 a.ml_kem_ct
      ∷ input signature_87 a.peer_signature
      ∷ bytes_in a.salt a.salt_len
      ∷ bytes_in a.app_info a.app_info_len
      ∷ bytes_in a.peer_confirmation 48
      ∷ output signature_87 a.out_signature
      ∷ bytes_out a.out_confirmation 48
      ∷ []

  abbrev pub confirm_regions : Arguments → List Region
  confirm_regions a =
      manager_region a.manager
      ∷ input public_key_87 a.peer_verifying_key
      ∷ input signature_87 a.peer_signature
      ∷ bytes_in a.peer_confirmation 48
      ∷ []

  module _ (p : Primitives) where
    -- The outputs are locals first, and are written on success only.
    unfoldable pub session_manager_encapsulate_authenticated_v2 :
        Host → Arguments → ShawncoreCryptoErr × Host
    session_manager_encapsulate_authenticated_v2 host a =
        if any_of (
          is_null a.manager
          ∷ is_null a.own_signing_key
          ∷ is_null a.peer_verifying_key
          ∷ is_null a.peer_ml_kem_pk
          ∷ is_null a.peer_x25519_pk
          ∷ is_null a.entropy
          ∷ is_null a.out_ct
          ∷ is_null a.out_my_x25519_pk
          ∷ is_null a.out_signature
          ∷ is_null a.out_confirmation
          ∷ [])
        then (invalid_state, host)
        else if any_of (
            not (ptr_is_aligned layout.manager_align a.manager)
            ∷ misaligned signing_key_87 a.own_signing_key
            ∷ misaligned public_key_87 a.peer_verifying_key
            ∷ misaligned public_key_1024 a.peer_ml_kem_pk
            ∷ misaligned x25519_public a.peer_x25519_pk
            ∷ misaligned ciphertext_1024 a.out_ct
            ∷ misaligned x25519_public a.out_my_x25519_pk
            ∷ misaligned signature_87 a.out_signature
            ∷ [])
        then (invalid_state, host)
        else if slices_rejected a
        then (invalid_length, host)
        else if writable_regions_overlap (encapsulate_regions a)
        then (invalid_length, host)
        else let (r, s, ct, my_pk, signature, confirmation) =
            encapsulate_authenticated p (host.managers a.manager) (host.objects a.own_signing_key)
              (host.objects a.peer_verifying_key) (host.objects a.peer_ml_kem_pk)
              (host.objects a.peer_x25519_pk) (read host.memory a.entropy 64)
              (read host.memory a.salt a.salt_len) (read host.memory a.app_info a.app_info_len)
              (replicate 1568 0) (replicate 32 0) (replicate 4627 0) (replicate 48 0) in
          let host' = record host { managers = set_manager host.managers a.manager s } in
          elim r [
            | ok u ↦ (
              success,
              record host' {
                objects =
                    set_object
                      (set_object (set_object host.objects a.out_ct ct) a.out_my_x25519_pk my_pk)
                      a.out_signature signature;
                memory = write host.memory a.out_confirmation confirmation;
              },
            )
            | err e ↦ (from_error e, host')
          ]

    unfoldable pub session_manager_finalize_authenticated_v2 :
        Host → Arguments → ShawncoreCryptoErr × Host
    session_manager_finalize_authenticated_v2 host a =
        if any_of (
          is_null a.manager
          ∷ is_null a.own_signing_key
          ∷ is_null a.peer_verifying_key
          ∷ is_null a.peer_x25519_pk
          ∷ is_null a.ml_kem_ct
          ∷ is_null a.peer_signature
          ∷ is_null a.peer_confirmation
          ∷ is_null a.out_signature
          ∷ is_null a.out_confirmation
          ∷ [])
        then (invalid_state, host)
        else if any_of (
            not (ptr_is_aligned layout.manager_align a.manager)
            ∷ misaligned signing_key_87 a.own_signing_key
            ∷ misaligned public_key_87 a.peer_verifying_key
            ∷ misaligned x25519_public a.peer_x25519_pk
            ∷ misaligned ciphertext_1024 a.ml_kem_ct
            ∷ misaligned signature_87 a.peer_signature
            ∷ misaligned signature_87 a.out_signature
            ∷ [])
        then (invalid_state, host)
        else if slices_rejected a
        then (invalid_length, host)
        else if writable_regions_overlap (finalize_regions a)
        then (invalid_length, host)
        else let (r, s, signature, confirmation) =
            finalize_authenticated p (host.managers a.manager) (host.objects a.own_signing_key)
              (host.objects a.peer_verifying_key) (host.objects a.peer_x25519_pk)
              (host.objects a.ml_kem_ct) (host.objects a.peer_signature)
              (read host.memory a.peer_confirmation 48) (read host.memory a.salt a.salt_len)
              (read host.memory a.app_info a.app_info_len) (replicate 4627 0) (replicate 48 0) in
          let host' = record host { managers = set_manager host.managers a.manager s } in
          elim r [
            | ok u ↦ (
              success,
              record host' {
                objects = set_object host.objects a.out_signature signature;
                memory = write host.memory a.out_confirmation confirmation;
              },
            )
            | err e ↦ (from_error e, host')
          ]

    unfoldable pub session_manager_confirm_peer_v2 : Host → Arguments → ShawncoreCryptoErr × Host
    session_manager_confirm_peer_v2 host a =
        if any_of (
          is_null a.manager
          ∷ is_null a.peer_verifying_key
          ∷ is_null a.peer_signature
          ∷ is_null a.peer_confirmation
          ∷ [])
        then (invalid_state, host)
        else if any_of (
            not (ptr_is_aligned layout.manager_align a.manager)
            ∷ misaligned public_key_87 a.peer_verifying_key
            ∷ misaligned signature_87 a.peer_signature
            ∷ [])
        then (invalid_state, host)
        else if writable_regions_overlap (confirm_regions a)
        then (invalid_length, host)
        else let (r, s) =
            confirm_peer p (host.managers a.manager) (host.objects a.peer_verifying_key)
              (host.objects a.peer_signature) (read host.memory a.peer_confirmation 48) in
          (status r, record host { managers = set_manager host.managers a.manager s })
