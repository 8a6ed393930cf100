-- ===== src/Crypto/Ffi/Keys.antt =====
-- The calls of the C interface (ffi.rs) for the single primitives: ML-KEM, ML-DSA and X25519 keys,
-- secrets and signatures, each on objects at the addresses that the pointers name.
use shawn_core_libraries.Base.{ℕ, Bool, not, [], ◌∷◌, ok, err, if◌then◌else◌, Bytes}
use shawn_core_libraries.Crypto.Error.{Outcome}
use shawn_core_libraries.Crypto.Primitives.{Primitives}
use shawn_core_libraries.Crypto.Wrappers.{
  ml_kem_keygen, ml_kem_encapsulate, ml_kem_decapsulate, x25519_keygen, x25519_diffie_hellman,
  ml_dsa_keygen, ml_dsa_sign, ml_dsa_verify,
}
use shawn_core_libraries.Crypto.Ffi.{
  ShawncoreCryptoErr, success, invalid_state, invalid_length, from_error, status, Layout, Host,
  Kind, public_key_1024, decaps_key_1024, shared_key_1024, ciphertext_1024, x25519_public,
  x25519_secret, x25519_shared_secret, public_key_87, signing_key_87, signature_87, read,
  set_object, is_null, ptr_is_aligned, range_ok, ranges_overlap, any_of, null_slice,
}

-- The `match` of a call with two output objects, and with one.
abbrev pub store_two :
    Host → (first second : ℕ) → Outcome (Bytes × Bytes) → ShawncoreCryptoErr × Host
store_two host first second (ok (a, b)) =
    (success, record host { objects = set_object (set_object host.objects first a) second b })
store_two host first second (err e) = (from_error e, host)

abbrev pub store_one : Host → (out : ℕ) → Outcome Bytes → ShawncoreCryptoErr × Host
store_one host out (ok a) = (success, record host { objects = set_object host.objects out a })
store_one host out (err e) = (from_error e, host)

module _ (layout : Layout) where
  abbrev misaligned : Kind → ℕ → Bool
  misaligned kind ptr = not (ptr_is_aligned (layout.align_of kind) ptr)

  -- `ranges_overlap` of two objects, and of an object and bytes.
  abbrev objects_overlap : (kind : Kind) (ptr : ℕ) (kind' : Kind) (ptr' : ℕ) → Bool
  objects_overlap kind ptr kind' ptr' =
      ranges_overlap ptr (layout.size_of kind) ptr' (layout.size_of kind')

  abbrev bytes_overlap : (kind : Kind) (ptr bytes len : ℕ) → Bool
  bytes_overlap kind ptr bytes len = ranges_overlap ptr (layout.size_of kind) bytes len

  module _ (p : Primitives) where
    unfoldable pub crypto_ml_kem_keygen :
        Host → (entropy out_pk out_dk : ℕ) → ShawncoreCryptoErr × Host
    crypto_ml_kem_keygen host entropy out_pk out_dk =
        if any_of (is_null entropy ∷ is_null out_pk ∷ is_null out_dk ∷ [])
        then (invalid_state, host)
        else if any_of (misaligned public_key_1024 out_pk ∷ misaligned decaps_key_1024 out_dk ∷ [])
        then (invalid_state, host)
        else if any_of (
            objects_overlap public_key_1024 out_pk decaps_key_1024 out_dk
            ∷ ranges_overlap entropy 64 out_pk (layout.size_of public_key_1024)
            ∷ ranges_overlap entropy 64 out_dk (layout.size_of decaps_key_1024)
            ∷ [])
        then (invalid_length, host)
        else store_two host out_pk out_dk (ml_kem_keygen p (read host.memory entropy 64))

    unfoldable pub crypto_ml_kem_encapsulate :
        Host → (pk entropy out_shared out_ct : ℕ) → ShawncoreCryptoErr × Host
    crypto_ml_kem_encapsulate host pk entropy out_shared out_ct =
        if any_of (is_null pk ∷ is_null entropy ∷ is_null out_shared ∷ is_null out_ct ∷ [])
        then (invalid_state, host)
        else if any_of (
            misaligned public_key_1024 pk
            ∷ misaligned shared_key_1024 out_shared
            ∷ misaligned ciphertext_1024 out_ct
            ∷ [])
        then (invalid_state, host)
        else if any_of (
            objects_overlap shared_key_1024 out_shared ciphertext_1024 out_ct
            ∷ objects_overlap shared_key_1024 out_shared public_key_1024 pk
            ∷ objects_overlap ciphertext_1024 out_ct public_key_1024 pk
            ∷ bytes_overlap shared_key_1024 out_shared entropy 32
            ∷ bytes_overlap ciphertext_1024 out_ct entropy 32
            ∷ [])
        then (invalid_length, host)
        else store_two host out_shared out_ct
            (ml_kem_encapsulate p (host.objects pk) (read host.memory entropy 32))

    unfoldable pub crypto_ml_kem_decapsulate :
        Host → (dk ct out_shared : ℕ) → ShawncoreCryptoErr × Host
    crypto_ml_kem_decapsulate host dk ct out_shared =
        if any_of (is_null dk ∷ is_null ct ∷ is_null out_shared ∷ [])
        then (invalid_state, host)
        else if any_of (
            misaligned decaps_key_1024 dk
            ∷ misaligned ciphertext_1024 ct
            ∷ misaligned shared_key_1024 out_shared
            ∷ [])
        then (invalid_state, host)
        else if any_of (
            objects_overlap shared_key_1024 out_shared decaps_key_1024 dk
            ∷ objects_overlap shared_key_1024 out_shared ciphertext_1024 ct
            ∷ [])
        then (invalid_length, host)
        else store_one host out_shared (ml_kem_decapsulate p (host.objects dk) (host.objects ct))

    unfoldable pub crypto_ml_dsa_keygen :
        Host → (seed out_pk out_sk : ℕ) → ShawncoreCryptoErr × Host
    crypto_ml_dsa_keygen host seed out_pk out_sk =
        if any_of (is_null seed ∷ is_null out_pk ∷ is_null out_sk ∷ [])
        then (invalid_state, host)
        else if any_of (misaligned public_key_87 out_pk ∷ misaligned signing_key_87 out_sk ∷ [])
        then (invalid_state, host)
        else if any_of (
            objects_overlap public_key_87 out_pk signing_key_87 out_sk
            ∷ ranges_overlap seed 32 out_pk (layout.size_of public_key_87)
            ∷ ranges_overlap seed 32 out_sk (layout.size_of signing_key_87)
            ∷ [])
        then (invalid_length, host)
        else store_two host out_pk out_sk (ml_dsa_keygen p (read host.memory seed 32))

    unfoldable pub crypto_ml_dsa_sign :
        Host → (sk msg msg_len out_sig : ℕ) → ShawncoreCryptoErr × Host
    crypto_ml_dsa_sign host sk msg msg_len out_sig =
        if any_of (is_null sk ∷ null_slice msg msg_len ∷ is_null out_sig ∷ [])
        then (invalid_state, host)
        else if not (range_ok msg msg_len)
        then (invalid_length, host)
        else if any_of (misaligned signing_key_87 sk ∷ misaligned signature_87 out_sig ∷ [])
        then (invalid_state, host)
        else if any_of (
            objects_overlap signature_87 out_sig signing_key_87 sk
            ∷ bytes_overlap signature_87 out_sig msg msg_len
            ∷ [])
        then (invalid_length, host)
        else store_one host out_sig (ml_dsa_sign p (host.objects sk) (read host.memory msg msg_len))

    unfoldable pub crypto_ml_dsa_verify : Host → (pk msg msg_len sig : ℕ) → ShawncoreCryptoErr
    crypto_ml_dsa_verify host pk msg msg_len sig =
        if any_of (is_null pk ∷ null_slice msg msg_len ∷ is_null sig ∷ [])
        then invalid_state
        else if not (range_ok msg msg_len)
        then invalid_length
        else if any_of (misaligned public_key_87 pk ∷ misaligned signature_87 sig ∷ [])
        then invalid_state
        else status
            (ml_dsa_verify p (host.objects pk) (read host.memory msg msg_len) (host.objects sig))

    unfoldable pub crypto_x25519_keygen :
        Host → (entropy out_pk out_sk : ℕ) → ShawncoreCryptoErr × Host
    crypto_x25519_keygen host entropy out_pk out_sk =
        if any_of (is_null entropy ∷ is_null out_pk ∷ is_null out_sk ∷ [])
        then (invalid_state, host)
        else if any_of (misaligned x25519_public out_pk ∷ misaligned x25519_secret out_sk ∷ [])
        then (invalid_state, host)
        else if any_of (
            objects_overlap x25519_public out_pk x25519_secret out_sk
            ∷ ranges_overlap entropy 32 out_pk (layout.size_of x25519_public)
            ∷ ranges_overlap entropy 32 out_sk (layout.size_of x25519_secret)
            ∷ [])
        then (invalid_length, host)
        else store_two host out_pk out_sk (ok (x25519_keygen p (read host.memory entropy 32)))

    unfoldable pub crypto_x25519_diffie_hellman :
        Host → (sk peer_pk out_shared : ℕ) → ShawncoreCryptoErr × Host
    crypto_x25519_diffie_hellman host sk peer_pk out_shared =
        if any_of (is_null sk ∷ is_null peer_pk ∷ is_null out_shared ∷ [])
        then (invalid_state, host)
        else if any_of (
            misaligned x25519_secret sk
            ∷ misaligned x25519_public peer_pk
            ∷ misaligned x25519_shared_secret out_shared
            ∷ [])
        then (invalid_state, host)
        else if any_of (
            objects_overlap x25519_shared_secret out_shared x25519_secret sk
            ∷ objects_overlap x25519_shared_secret out_shared x25519_public peer_pk
            ∷ [])
        then (invalid_length, host)
        else store_one host out_shared
            (x25519_diffie_hellman p (host.objects sk) (host.objects peer_pk))
