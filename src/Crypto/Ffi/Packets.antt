-- ===== src/Crypto/Ffi/Packets.antt =====
-- The packet calls of the C interface (ffi.rs): shawncore_crypto_session_manager_encrypt_packet and
-- shawncore_crypto_session_manager_decrypt_packet, with init, destroy and zeroize of a manager. An
-- empty slice is read and written as one of length 0.
use shawn_core_libraries.Base.{ℕ, Bool, not, ◌&&◌, List, [], ◌∷◌, if◌then◌else◌, ltb, Bytes}
use shawn_core_libraries.Crypto.Error.{Outcome}
use shawn_core_libraries.Crypto.Primitives.{Primitives}
use shawn_core_libraries.Crypto.Session.State.{SessionManager, new, zeroize_session}
use shawn_core_libraries.Crypto.Session.Packet.{encrypt_packet, decrypt_packet}
use shawn_core_libraries.Crypto.Ffi.{
  ShawncoreCryptoErr, success, invalid_state, invalid_length, status, Layout, Host, read, write,
  set_manager, is_null, ptr_is_aligned, range_ok, packet_len_valid, ranges_overlap, any_of,
}

module _ (layout : Layout) where
  unfoldable pub session_manager_init : Host → (manager : ℕ) → ShawncoreCryptoErr × Host
  session_manager_init host manager =
      if is_null manager
      then (invalid_state, host)
      else if not (ptr_is_aligned layout.manager_align manager)
      then (invalid_state, host)
      else (success, record host { managers = set_manager host.managers manager new })

  unfoldable pub session_manager_zeroize : Host → (manager : ℕ) → ShawncoreCryptoErr × Host
  session_manager_zeroize host manager =
      if is_null manager
      then (invalid_state, host)
      else if not (ptr_is_aligned layout.manager_align manager)
      then (invalid_state, host)
      else (
        success,
        record host {
          managers = set_manager host.managers manager (zeroize_session (host.managers manager));
        },
      )

  -- The overlap tests of the two calls, in the order of the code.
  abbrev pub encrypt_overlaps :
      (manager aad aad_len plaintext ciphertext data_len out_nonce out_tag : ℕ) → List Bool
  encrypt_overlaps manager aad aad_len plaintext ciphertext data_len out_nonce out_tag =
      ranges_overlap manager layout.manager_size aad aad_len
      ∷ ranges_overlap manager layout.manager_size plaintext data_len
      ∷ ranges_overlap manager layout.manager_size ciphertext data_len
      ∷ ranges_overlap manager layout.manager_size out_nonce 12
      ∷ ranges_overlap manager layout.manager_size out_tag 48
      ∷ ranges_overlap ciphertext data_len aad aad_len
      ∷ ranges_overlap ciphertext data_len plaintext data_len
      ∷ ranges_overlap ciphertext data_len out_nonce 12
      ∷ ranges_overlap ciphertext data_len out_tag 48
      ∷ ranges_overlap out_nonce 12 aad aad_len
      ∷ ranges_overlap out_nonce 12 plaintext data_len
      ∷ ranges_overlap out_nonce 12 out_tag 48
      ∷ ranges_overlap out_tag 48 aad aad_len
      ∷ ranges_overlap out_tag 48 plaintext data_len
      ∷ []

  unfoldable pub session_encrypt_buffers_overlap :
      (manager aad aad_len plaintext ciphertext data_len out_nonce out_tag : ℕ) → Bool
  session_encrypt_buffers_overlap manager aad aad_len plaintext ciphertext data_len out_nonce
        out_tag =
      any_of (encrypt_overlaps manager aad aad_len plaintext ciphertext data_len out_nonce out_tag)

  abbrev pub decrypt_overlaps :
      (manager aad aad_len ciphertext data_len nonce tag plaintext : ℕ) → List Bool
  decrypt_overlaps manager aad aad_len ciphertext data_len nonce tag plaintext =
      ranges_overlap manager layout.manager_size aad aad_len
      ∷ ranges_overlap manager layout.manager_size ciphertext data_len
      ∷ ranges_overlap manager layout.manager_size nonce 12
      ∷ ranges_overlap manager layout.manager_size tag 48
      ∷ ranges_overlap manager layout.manager_size plaintext data_len
      ∷ ranges_overlap plaintext data_len aad aad_len
      ∷ ranges_overlap plaintext data_len ciphertext data_len
      ∷ ranges_overlap plaintext data_len nonce 12
      ∷ ranges_overlap plaintext data_len tag 48
      ∷ []

  unfoldable pub session_decrypt_buffers_overlap :
      (manager aad aad_len ciphertext data_len nonce tag plaintext : ℕ) → Bool
  session_decrypt_buffers_overlap manager aad aad_len ciphertext data_len nonce tag plaintext =
      any_of (decrypt_overlaps manager aad aad_len ciphertext data_len nonce tag plaintext)

  -- The condition under which each call answers `InvalidLength`.
  unfoldable pub encrypt_rejects :
      (manager aad aad_len plaintext ciphertext data_len out_nonce out_tag : ℕ) → Bool
  unfolding session_encrypt_buffers_overlap
  encrypt_rejects manager aad aad_len plaintext ciphertext data_len out_nonce out_tag = any_of (
      is_null manager
      ∷ not (ptr_is_aligned layout.manager_align manager)
      ∷ (is_null plaintext && ltb 0 data_len)
      ∷ (is_null ciphertext && ltb 0 data_len)
      ∷ is_null out_nonce
      ∷ is_null out_tag
      ∷ (is_null aad && ltb 0 aad_len)
      ∷ not (range_ok aad aad_len)
      ∷ not (packet_len_valid data_len)
      ∷ not (range_ok plaintext data_len)
      ∷ not (range_ok ciphertext data_len)
      ∷ session_encrypt_buffers_overlap manager aad aad_len plaintext ciphertext data_len out_nonce
          out_tag
      ∷ [])

  unfoldable pub decrypt_rejects :
      (manager aad aad_len ciphertext data_len nonce tag plaintext : ℕ) → Bool
  unfolding session_decrypt_buffers_overlap
  decrypt_rejects manager aad aad_len ciphertext data_len nonce tag plaintext = any_of (
      is_null manager
      ∷ not (ptr_is_aligned layout.manager_align manager)
      ∷ (is_null ciphertext && ltb 0 data_len)
      ∷ is_null nonce
      ∷ is_null tag
      ∷ (is_null plaintext && ltb 0 data_len)
      ∷ (is_null aad && ltb 0 aad_len)
      ∷ not (range_ok aad aad_len)
      ∷ not (packet_len_valid data_len)
      ∷ not (range_ok ciphertext data_len)
      ∷ not (range_ok plaintext data_len)
      ∷ session_decrypt_buffers_overlap manager aad aad_len ciphertext data_len nonce tag plaintext
      ∷ [])

  module _ (p : Primitives) where
    -- What `encrypt_packet` makes of the buffers.
    abbrev pub encrypted :
        Host
        → (manager aad aad_len plaintext ciphertext data_len out_nonce out_tag : ℕ)
        → Outcome (Unit {0}) × SessionManager × Bytes × Bytes × Bytes
    encrypted host manager aad aad_len plaintext ciphertext data_len out_nonce out_tag =
        encrypt_packet p (host.managers manager) (read host.memory aad aad_len)
          (read host.memory plaintext data_len) (read host.memory ciphertext data_len)
          (read host.memory out_nonce 12) (read host.memory out_tag 48)

    unfoldable pub session_manager_encrypt_packet :
        Host
        → (manager aad aad_len plaintext ciphertext data_len out_nonce out_tag : ℕ)
        → ShawncoreCryptoErr × Host
    unfolding encrypt_rejects
    session_manager_encrypt_packet host manager aad aad_len plaintext ciphertext data_len out_nonce
          out_tag =
        if encrypt_rejects manager aad aad_len plaintext ciphertext data_len out_nonce out_tag
        then (invalid_length, host)
        else let (r, s, c, n, t) =
            encrypted host manager aad aad_len plaintext ciphertext data_len out_nonce out_tag in
          (
            status r,
            record host {
              memory = write (write (write host.memory ciphertext c) out_nonce n) out_tag t;
              managers = set_manager host.managers manager s;
            },
          )

    -- What `decrypt_packet` makes of the buffers.
    abbrev pub decrypted :
        Host
        → (manager aad aad_len ciphertext data_len nonce tag plaintext : ℕ)
        → Outcome (Unit {0}) × SessionManager × Bytes
    decrypted host manager aad aad_len ciphertext data_len nonce tag plaintext =
        decrypt_packet p (host.managers manager) (read host.memory aad aad_len)
          (read host.memory ciphertext data_len) (read host.memory nonce 12)
          (read host.memory tag 48) (read host.memory plaintext data_len)

    unfoldable pub session_manager_decrypt_packet :
        Host
        → (manager aad aad_len ciphertext data_len nonce tag plaintext : ℕ)
        → ShawncoreCryptoErr × Host
    unfolding decrypt_rejects
    session_manager_decrypt_packet host manager aad aad_len ciphertext data_len nonce tag
          plaintext =
        if decrypt_rejects manager aad aad_len ciphertext data_len nonce tag plaintext
        then (invalid_length, host)
        else let (r, s, buffer) =
            decrypted host manager aad aad_len ciphertext data_len nonce tag plaintext in
          (
            status r,
            record host {
              memory = write host.memory plaintext buffer;
              managers = set_manager host.managers manager s;
            },
          )
