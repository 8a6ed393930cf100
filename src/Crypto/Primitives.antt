-- ===== src/Crypto/Primitives.antt =====
-- The cryptographic crates that shawncore-pq-crypto calls (chacha20, hmac, hkdf, sha2, subtle,
-- ml-kem, x25519-dalek, ml-dsa), as parameters. A key, signature or cipher object of a crate is
-- the byte string that encodes it, a cipher or a keyed MAC the function that applies it.
use shawn_core_libraries.Base.{ℕ, Bool, true, Option, some, ◌≡◌, ◌↔◌, Bytes, length}

pub record Primitives : Type 0 where
  -- `ChaCha20::new_from_slices(key, nonce)`, then `try_apply_keystream(buffer)`.
  pub chacha20 : Bytes → Bytes → Option (Bytes → Option Bytes)
  -- `Hmac::<Sha384>::new_from_slice(key)`, then the tag of all that `update` was given.
  pub hmac_sha384 : Bytes → Option (Bytes → Bytes)
  -- The digest of all that `update` was given.
  pub sha384 : Bytes → Bytes
  -- `Hkdf::<Sha384>::new(Some(salt), ikm)`, then `expand(info, out)` for an `out` of that length.
  pub hkdf_sha384 : (salt ikm info : Bytes) (len : ℕ) → Option Bytes
  -- `Hkdf::<Sha384>::from_prk(prk)`, then `expand(info, out)` for an `out` of that length.
  pub hkdf_from_prk : (prk : Bytes) → Option ((info : Bytes) (len : ℕ) → Option Bytes)
  -- `a.ct_eq(b)`.
  pub ct_eq : Bytes → Bytes → Bool
  -- `DecapsulationKey1024::from_seed`, `encapsulation_key`, `encapsulate_deterministic` (ciphertext
  -- and secret), `decapsulate`, and the wire encoding of an encapsulation key.
  pub ml_kem_from_seed : Bytes → Bytes
  pub ml_kem_encapsulation_key : Bytes → Bytes
  pub ml_kem_encapsulate : (ek m : Bytes) → Bytes × Bytes
  pub ml_kem_decapsulate : (dk ct : Bytes) → Bytes
  pub ml_kem_to_bytes : Bytes → Bytes
  -- `EncapsulationKey1024::new(encoded)`.
  pub ml_kem_key_of : Bytes → Option Bytes
  -- `PublicKey::from(&StaticSecret)`, `StaticSecret::from(bytes).to_bytes()`, `diffie_hellman`,
  -- and `was_contributory` of a shared secret.
  pub x25519_public : Bytes → Bytes
  pub x25519_secret : Bytes → Bytes
  pub x25519_shared : (sk pk : Bytes) → Bytes
  pub x25519_was_contributory : Bytes → Bool
  -- `verifying_key`, its encoding, `sign_deterministic(msg, context)`, the decoding of a signature
  -- and `verify_with_context(msg, context, signature)`.
  pub ml_dsa_verifying_key : Bytes → Bytes
  pub ml_dsa_encode : Bytes → Bytes
  pub ml_dsa_sign : (sk msg context : Bytes) → Option Bytes
  pub ml_dsa_decode_signature : Bytes → Option Bytes
  pub ml_dsa_verify : (pk msg context signature : Bytes) → Bool
  -- `from_seed`, `sign(msg)`, `verify(msg, signature)` and `VerifyingKey::decode`.
  pub ml_dsa_from_seed : Bytes → Bytes
  pub ml_dsa_sign_plain : (sk msg : Bytes) → Bytes
  pub ml_dsa_verify_plain : (pk msg signature : Bytes) → Bool
  pub ml_dsa_decode : Bytes → Bytes

-- What the constant-time comparison documents: it says whether the bytes are equal.
abbrev pub ComparesBytes : Primitives → Type 0
ComparesBytes p = (a b : Bytes) → (p.ct_eq a b ≡ true) ↔ (a ≡ b)

-- SHA-384 digests have 48 bytes.
abbrev pub HasDigestSize : Primitives → Type 0
HasDigestSize p = (message : Bytes) → length (p.sha384 message) ≡ 48

-- HMAC-SHA384 tags have 48 bytes.
abbrev pub HasMacSize : Primitives → Type 0
HasMacSize p =
    (key message : Bytes) (mac : Bytes → Bytes)
    → p.hmac_sha384 key ≡ some mac
    → length (mac message) ≡ 48

-- A stream cipher: applying the keystream of one key and nonce twice gives the data back.
pub record IsStreamCipher (p : Primitives) : Type 0 where
  pub length_kept :
      (key nonce : Bytes) {apply : Bytes → Option Bytes} (data_in : Bytes) {data_out : Bytes}
      → p.chacha20 key nonce ≡ some apply
      → apply data_in ≡ some data_out
      → length data_out ≡ length data_in
  pub involution :
      (key nonce : Bytes) {apply : Bytes → Option Bytes} (data_in : Bytes) {data_out : Bytes}
      → p.chacha20 key nonce ≡ some apply
      → apply data_in ≡ some data_out
      → apply data_out ≡ some data_in

-- What the key exchanges and the signature scheme document: both sides get one secret, and a
-- signature verifies under the signer's key, message and context, its encoding decoding to it.
pub record IsKeyExchange (p : Primitives) : Type 0 where
  pub kem_agrees :
      (dk m : Bytes)
      → p.ml_kem_decapsulate dk (p.ml_kem_encapsulate (p.ml_kem_encapsulation_key dk) m).0
        ≡ (p.ml_kem_encapsulate (p.ml_kem_encapsulation_key dk) m).1
  pub dh_agrees :
      (a b : Bytes) → p.x25519_shared a (p.x25519_public b) ≡ p.x25519_shared b (p.x25519_public a)
  pub secret_kept : (seed : Bytes) → p.x25519_secret seed ≡ seed

pub record IsSignature (p : Primitives) : Type 0 where
  pub signed_verifies :
      (sk msg context : Bytes) {signature : Bytes}
      → p.ml_dsa_sign sk msg context ≡ some signature
      → (p.ml_dsa_decode_signature signature ≡ some signature)
        × (p.ml_dsa_verify (p.ml_dsa_verifying_key sk) msg context signature ≡ true)
