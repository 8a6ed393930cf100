-- ===== src/Crypto/Examples/Encodings.antt =====
-- The encodings of aead_wrapper.rs and auth_handshake.rs with the primitives of Toy.
use shawn_core_libraries.Base.{
  ℕ, ◌≡◌, ◌≢◌, refl, ap, [], ◌∷◌, replicate, get_or, length-replicate, Bytes, arith,
}
use shawn_core_libraries.Base.Encoding.{to_be_bytes}
use shawn_core_libraries.Crypto.Error.{Outcome}
use shawn_core_libraries.Crypto.Toy.{toy}
use shawn_core_libraries.Crypto.Aead.{aead_encrypt, aead_decrypt}
use shawn_core_libraries.Crypto.Aead.InPlace.{
  aead_encrypt_in_place, aead_decrypt_in_place, in_place-two_buffers,
}
use shawn_core_libraries.Crypto.Auth.{binding_input, handshake_binding}
use shawn_core_libraries.Crypto.Auth.Unambiguous.{HasSizes, handshake_binding_collision}

in_place-two_buffers_example :
    (aead_encrypt_in_place toy (1 ∷ []) (2 ∷ []) (3 ∷ []) [] (7 ∷ 8 ∷ []) []
      ≡ aead_encrypt toy (1 ∷ []) (2 ∷ []) (3 ∷ []) [] (7 ∷ 8 ∷ []) (7 ∷ 8 ∷ []) [])
    × (aead_decrypt_in_place toy (1 ∷ []) (2 ∷ []) (3 ∷ []) [] (7 ∷ 8 ∷ []) (9 ∷ [])
        ≡ aead_decrypt toy (1 ∷ []) (2 ∷ []) (3 ∷ []) [] (7 ∷ 8 ∷ []) (9 ∷ []) (7 ∷ 8 ∷ []))
in_place-two_buffers_example =
    in_place-two_buffers toy (1 ∷ []) (2 ∷ []) (3 ∷ []) [] (7 ∷ 8 ∷ []) (9 ∷ []) []

abbrev ek : Bytes
ek = replicate 1568 1

abbrev x25519_pk : Bytes
x25519_pk = replicate 32 2

abbrev identity : Bytes
identity = replicate 48 3

abbrev binding : Outcome Bytes
binding = handshake_binding toy ek x25519_pk identity identity (1 ∷ 2 ∷ [])

sizes : HasSizes ek x25519_pk identity identity
sizes = record {
  ek_size = length-replicate {A = ℕ} 1568 1;
  x25519_size = refl;
  keygen_size = refl;
  encapsulator_size = refl;
}

abbrev digest : Bytes
digest = toy.sha384 (binding_input ek x25519_pk identity identity (1 ∷ 2 ∷ []))

-- The digest of Toy does not see the order of the bytes.
handshake_binding_collision_example :
    (a : Bytes) × (b : Bytes) × (a ≢ b) × (toy.sha384 a ≡ toy.sha384 b)
unfolding handshake_binding binding_input to_be_bytes
handshake_binding_collision_example =
    handshake_binding_collision toy ek ek x25519_pk x25519_pk identity identity identity identity
      (1 ∷ 2 ∷ []) (2 ∷ 1 ∷ []) {binding = digest} sizes sizes refl refl
      (λ (_, _, _, _, info). absurd (ground (arith, ap (λ l. get_or l 0 0) info)))
