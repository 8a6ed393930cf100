-- ===== src/Crypto/Ffi/Aead.antt =====
-- The calls of the C interface (ffi.rs) for the MAC, the key expansion and the AEAD:
-- shawncore_crypto_hmac_sha384, hkdf_expand_sha384, aead_encrypt and aead_decrypt.
use shawn_core_libraries.Base.{ℕ, Bool, not, [], ◌∷◌, ok, err, if◌then◌else◌}
use shawn_core_libraries.Crypto.Primitives.{Primitives}
use shawn_core_libraries.Crypto.Aead.{hmac_sha384, aead_encrypt, aead_decrypt}
use shawn_core_libraries.Crypto.Aead.InPlace.{hkdf_expand_sha384}
use shawn_core_libraries.Crypto.Ffi.{
  ShawncoreCryptoErr, success, invalid_state, invalid_length, from_error, status, Host, read, write,
  is_null, range_ok, packet_len_valid, ranges_overlap, any_of, null_slice,
}

unfoldable pub aead_encrypt_buffers_overlap :
    (enc_key mac_key nonce aad aad_len plaintext ciphertext out_mac data_len : ℕ) → Bool
aead_encrypt_buffers_overlap enc_key mac_key nonce aad aad_len plaintext ciphertext out_mac
      data_len =
    any_of (
      ranges_overlap ciphertext data_len enc_key 32
      ∷ ranges_overlap ciphertext data_len mac_key 32
      ∷ ranges_overlap ciphertext data_len nonce 12
      ∷ ranges_overlap ciphertext data_len aad aad_len
      ∷ ranges_overlap ciphertext data_len plaintext data_len
      ∷ ranges_overlap out_mac 48 enc_key 32
      ∷ ranges_overlap out_mac 48 mac_key 32
      ∷ ranges_overlap out_mac 48 nonce 12
      ∷ ranges_overlap out_mac 48 aad aad_len
      ∷ ranges_overlap out_mac 48 plaintext data_len
      ∷ ranges_overlap out_mac 48 ciphertext data_len
      ∷ [])

unfoldable pub aead_decrypt_buffers_overlap :
    (enc_key mac_key nonce aad aad_len ciphertext mac plaintext data_len : ℕ) → Bool
aead_decrypt_buffers_overlap enc_key mac_key nonce aad aad_len ciphertext mac plaintext data_len =
    any_of (
      ranges_overlap plaintext data_len enc_key 32
      ∷ ranges_overlap plaintext data_len mac_key 32
      ∷ ranges_overlap plaintext data_len nonce 12
      ∷ ranges_overlap plaintext data_len aad aad_len
      ∷ ranges_overlap plaintext data_len ciphertext data_len
      ∷ ranges_overlap plaintext data_len mac 48
      ∷ [])

module _ (p : Primitives) where
  unfoldable pub crypto_hmac_sha384 :
      Host → (key data_ptr data_len out_mac : ℕ) → ShawncoreCryptoErr × Host
  crypto_hmac_sha384 host key data_ptr data_len out_mac =
      if any_of (is_null key ∷ null_slice data_ptr data_len ∷ is_null out_mac ∷ [])
      then (invalid_state, host)
      else if not (range_ok data_ptr data_len)
      then (invalid_length, host)
      else if any_of
          (ranges_overlap out_mac 48 key 32 ∷ ranges_overlap out_mac 48 data_ptr data_len ∷ [])
      then (invalid_length, host)
      else elim (hmac_sha384 p (read host.memory key 32) (read host.memory data_ptr data_len)) [
        | ok mac ↦ (success, record host { memory = write host.memory out_mac mac })
        | err e ↦ (from_error e, host)
      ]

  unfoldable pub crypto_hkdf_expand_sha384 :
      Host → (prk info info_len out out_len : ℕ) → ShawncoreCryptoErr × Host
  crypto_hkdf_expand_sha384 host prk info info_len out out_len =
      if any_of (is_null prk ∷ null_slice info info_len ∷ null_slice out out_len ∷ [])
      then (invalid_state, host)
      else if any_of (not (range_ok info info_len) ∷ not (range_ok out out_len) ∷ [])
      then (invalid_length, host)
      else if any_of
          (ranges_overlap out out_len prk 48 ∷ ranges_overlap out out_len info info_len ∷ [])
      then (invalid_length, host)
      else let (r, expanded) =
          hkdf_expand_sha384 p (read host.memory prk 48) (read host.memory info info_len)
            (read host.memory out out_len) in
        (status r, record host { memory = write host.memory out expanded })

  unfoldable pub crypto_aead_encrypt :
      Host
      → (enc_key mac_key nonce aad aad_len plaintext ciphertext data_len out_mac : ℕ)
      → ShawncoreCryptoErr × Host
  unfolding aead_encrypt_buffers_overlap
  crypto_aead_encrypt host enc_key mac_key nonce aad aad_len plaintext ciphertext data_len out_mac =
      if any_of (
        is_null enc_key
        ∷ is_null mac_key
        ∷ is_null nonce
        ∷ null_slice plaintext data_len
        ∷ null_slice ciphertext data_len
        ∷ is_null out_mac
        ∷ [])
      then (invalid_state, host)
      else if any_of (
          null_slice aad aad_len
          ∷ not (range_ok aad aad_len)
          ∷ not (packet_len_valid data_len)
          ∷ not (range_ok plaintext data_len)
          ∷ not (range_ok ciphertext data_len)
          ∷ [])
      then (invalid_length, host)
      else if aead_encrypt_buffers_overlap enc_key mac_key nonce aad aad_len plaintext ciphertext
          out_mac data_len
      then (invalid_length, host)
      else let (r, c, t) =
          aead_encrypt p (read host.memory enc_key 32) (read host.memory mac_key 32)
            (read host.memory nonce 12) (read host.memory aad aad_len)
            (read host.memory plaintext data_len) (read host.memory ciphertext data_len)
            (read host.memory out_mac 48) in
        (status r, record host { memory = write (write host.memory ciphertext c) out_mac t })

  unfoldable pub crypto_aead_decrypt :
      Host
      → (enc_key mac_key nonce aad aad_len ciphertext mac plaintext data_len : ℕ)
      → ShawncoreCryptoErr × Host
  unfolding aead_decrypt_buffers_overlap
  crypto_aead_decrypt host enc_key mac_key nonce aad aad_len ciphertext mac plaintext data_len =
      if any_of (
        is_null enc_key
        ∷ is_null mac_key
        ∷ is_null nonce
        ∷ null_slice ciphertext data_len
        ∷ is_null mac
        ∷ null_slice plaintext data_len
        ∷ [])
      then (invalid_state, host)
      else if any_of (
          null_slice aad aad_len
          ∷ not (range_ok aad aad_len)
          ∷ not (packet_len_valid data_len)
          ∷ not (range_ok ciphertext data_len)
          ∷ not (range_ok plaintext data_len)
          ∷ [])
      then (invalid_length, host)
      else if aead_decrypt_buffers_overlap enc_key mac_key nonce aad aad_len ciphertext mac
          plaintext data_len
      then (invalid_length, host)
      else let (r, buffer) =
          aead_decrypt p (read host.memory enc_key 32) (read host.memory mac_key 32)
            (read host.memory nonce 12) (read host.memory aad aad_len)
            (read host.memory ciphertext data_len) (read host.memory mac 48)
            (read host.memory plaintext data_len) in
        (status r, record host { memory = write host.memory plaintext buffer })
