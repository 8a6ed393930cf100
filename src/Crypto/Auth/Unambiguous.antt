-- ===== src/Crypto/Auth/Unambiguous.antt =====
-- The binding of auth_handshake.rs, read back.
use shawn_core_libraries.Base.{ℕ, ◌^◌, ◌<◌, ◌≡◌, ◌≢◌, refl, ok, length, Bytes, List, [], ◌∷◌, arith}
use shawn_core_libraries.Base.Encoding.{
  to_be_bytes, to_be_bytes-injective, length-to_be_bytes, append-split,
}
use shawn_core_libraries.Crypto.Primitives.{Primitives}
use shawn_core_libraries.Crypto.Kdf.{codes}
use shawn_core_libraries.Crypto.Auth.{
  concat, auth_suite, auth_protocol_version, binding_input, handshake_binding,
}

-- The fixed lengths of an encoded ML-KEM-1024 key, an X25519 key and a fingerprint.
pub record HasSizes (ek x25519_pk keygen_id encapsulator_id : Bytes) : Type 0 where
  pub ek_size : length ek ≡ 1568
  pub x25519_size : length x25519_pk ≡ 32
  pub keygen_size : length keygen_id ≡ 48
  pub encapsulator_size : length encapsulator_id ≡ 48

next_part :
    (n : ℕ) (a b : Bytes) (as' bs : List Bytes)
    → length a ≡ n
    → length b ≡ n
    → concat (a ∷ as') ≡ concat (b ∷ bs)
    → (a ≡ b) × (concat as' ≡ concat bs)
next_part n a b as' bs ha hb e = append-split n a b (concat as') (concat bs) ha hb e

same_part :
    (a : Bytes) (as' bs : List Bytes) → concat (a ∷ as') ≡ concat (a ∷ bs) → concat as' ≡ concat bs
same_part a as' bs e = (next_part (length a) a a as' bs refl refl e).1

abbrev header : List Bytes → List Bytes
header rest =
    codes "ShawnCore-auth-v2 binding"
    ∷ (auth_protocol_version ∷ [])
    ∷ to_be_bytes 2 (length auth_suite)
    ∷ auth_suite
    ∷ rest

after_header :
    (as' bs : List Bytes) → concat (header as') ≡ concat (header bs) → concat as' ≡ concat bs
after_header as' bs e =
    let e1 =
      same_part (codes "ShawnCore-auth-v2 binding")
        ((auth_protocol_version ∷ []) ∷ to_be_bytes 2 (length auth_suite) ∷ auth_suite ∷ as')
        ((auth_protocol_version ∷ []) ∷ to_be_bytes 2 (length auth_suite) ∷ auth_suite ∷ bs) e in
    let e2 =
      same_part (auth_protocol_version ∷ []) (to_be_bytes 2 (length auth_suite) ∷ auth_suite ∷ as')
        (to_be_bytes 2 (length auth_suite) ∷ auth_suite ∷ bs) e1 in
    let e3 =
      same_part (to_be_bytes 2 (length auth_suite)) (auth_suite ∷ as') (auth_suite ∷ bs) e2 in
    same_part auth_suite as' bs e3

pub binding_input-injective :
    (ek ek' x x' k k' c c' info info' : Bytes)
    → HasSizes ek x k c
    → HasSizes ek' x' k' c'
    → length info < 2 ^ 32
    → length info' < 2 ^ 32
    → binding_input ek x k c info ≡ binding_input ek' x' k' c' info'
    → (ek ≡ ek') × (x ≡ x') × (k ≡ k') × (c ≡ c') × (info ≡ info')
unfolding binding_input
binding_input-injective ek ek' x x' k k' c c' info info' s s' h h' e =
    let e0 =
      after_header (ek ∷ x ∷ k ∷ c ∷ to_be_bytes 4 (length info) ∷ info ∷ [])
        (ek' ∷ x' ∷ k' ∷ c' ∷ to_be_bytes 4 (length info') ∷ info' ∷ []) e in
    let (same_ek, e1) = append-split 1568 ek ek' _ _ s.ek_size s'.ek_size e0 in
    let (same_x, e2) = append-split 32 x x' _ _ s.x25519_size s'.x25519_size e1 in
    let (same_k, e3) = append-split 48 k k' _ _ s.keygen_size s'.keygen_size e2 in
    let (same_c, e4) = append-split 48 c c' _ _ s.encapsulator_size s'.encapsulator_size e3 in
    let (lengths, e5) =
      append-split 4 _ _ _ _ (length-to_be_bytes 4 (length info))
        (length-to_be_bytes 4 (length info')) e4 in
    let same_length = to_be_bytes-injective 4 (length info) (length info') h h' lengths in
    let (same_info, _) = append-split (length info') info info' [] [] same_length refl e5 in
    (same_ek, same_x, same_k, same_c, same_info)

-- Two different handshakes with one binding are a collision of the hash: if the keys and identities
-- have their fixed lengths, the encoded keys, the identities or the application data differ, and
-- `handshake_binding` accepts both and gives the same digest, then two different inputs of SHA-384
-- with the same digest are known.
pub handshake_binding_collision :
    (p : Primitives) (ek ek' x x' k k' c c' info info' : Bytes) {binding : Bytes}
    → HasSizes (p.ml_kem_to_bytes ek) x k c
    → HasSizes (p.ml_kem_to_bytes ek') x' k' c'
    → handshake_binding p ek x k c info ≡ ok binding
    → handshake_binding p ek' x' k' c' info' ≡ ok binding
    → ¬ (
        (p.ml_kem_to_bytes ek ≡ p.ml_kem_to_bytes ek')
        × (x ≡ x')
        × (k ≡ k')
        × (c ≡ c')
        × (info ≡ info'))
    → (a : Bytes) × (b : Bytes) × (a ≢ b) × (p.sha384 a ≡ p.sha384 b)
unfolding handshake_binding
handshake_binding_collision p ek ek' x x' k k' c c' info info' s s' h h' differ = (
  binding_input (p.ml_kem_to_bytes ek) x k c info,
  binding_input (p.ml_kem_to_bytes ek') x' k' c' info',
  (λ e.
      differ (
        binding_input-injective _ _ x x' k k' c c' info info' s s' (ground arith) (ground arith)
          e)),
  ground arith,
)
