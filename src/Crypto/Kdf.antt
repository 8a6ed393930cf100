-- ===== src/Crypto/Kdf.antt =====
-- shawncore-pq-crypto/src/hybrid_kdf.rs: HKDF-SHA384 over the two shared secrets. The functions
-- also return the two secret buffers, which they wipe on every path.
use Prim.Native.String.{String}
use Prim.Native.Char.{code}
use shawn_core_libraries.Base.{ℕ, none, some, ok, err, ok_or, [], ◌∷◌, ◌++◌, Bytes}
use shawn_core_libraries.Crypto.Error.{Outcome, hkdf_error}
use shawn_core_libraries.Crypto.Primitives.{Primitives}
use shawn_core_libraries.Crypto.Aead.{zeroed}

-- A byte-string literal.
abbrev pub codes : String → Bytes
codes String.[] = []
codes (String.◌∷◌ c s) = code c ∷ codes s

abbrev pub hybrid_output_size : ℕ
hybrid_output_size = 128

abbrev pub confirmation_output_size : ℕ
confirmation_output_size = 96

abbrev pub key_confirmation_info_label : Bytes
key_confirmation_info_label = codes "ShawnCore-auth-v2 key confirmation"

unfoldable pub confirmation_info : (inner_transcript : Bytes) → Bytes
confirmation_info inner_transcript = key_confirmation_info_label ++ 0 ∷ inner_transcript

module _ (p : Primitives) where
  unfoldable pub derive_hybrid_key :
      (pq_secret classical_secret salt info : Bytes) → Outcome Bytes × Bytes × Bytes
  derive_hybrid_key pq_secret classical_secret salt info = (
    ok_or (p.hkdf_sha384 salt (pq_secret ++ classical_secret) info hybrid_output_size) hkdf_error,
    zeroed pq_secret,
    zeroed classical_secret,
  )

  -- The session keys and the confirmation material.
  unfoldable pub derive_hybrid_key_with_confirmation :
      (pq_secret classical_secret salt info confirmation_info : Bytes)
      → Outcome (Bytes × Bytes) × Bytes × Bytes
  derive_hybrid_key_with_confirmation pq_secret classical_secret salt info confirm =
      let session = p.hkdf_sha384 salt (pq_secret ++ classical_secret) info hybrid_output_size in
      let confirmation =
        p.hkdf_sha384 salt (pq_secret ++ classical_secret) confirm confirmation_output_size in
      (
        elim session [
          | none ↦ err hkdf_error
          | some derived_key ↦ elim confirmation [
            | none ↦ err hkdf_error
            | some material ↦ ok (derived_key, material)
          ]
        ],
        zeroed pq_secret,
        zeroed classical_secret,
      )
