-- ===== src/Crypto/Aead/Unambiguous.antt =====
-- The bytes that the MAC of aead_wrapper.rs covers, read back, and what a tag vouches for.
use shawn_core_libraries.Base.{
  ℕ, ◌^◌, ◌<◌, ◌≡◌, ◌≢◌, refl, sym, ap, ◌∙◌, some, ok, length, Bytes, arith,
}
use shawn_core_libraries.Base.Encoding.{to_be_bytes-injective, length-to_be_bytes, append-split}
use shawn_core_libraries.Crypto.Primitives.{Primitives, ComparesBytes}
use shawn_core_libraries.Crypto.Aead.{mac_input, aead_encrypt, aead_decrypt}
use shawn_core_libraries.Crypto.Aead.RoundTrip.{aead_encrypt-Encrypted, aead_decrypt-Decrypted}

-- With nonces of one length and associated data of less than 2^64 bytes: the MAC inputs of two
-- packets are equal only if the packets have the same nonce, the same associated data and the same
-- ciphertext.
mac_input-injective :
    (p : Primitives) (n : ℕ) (nonce nonce' aad aad' ciphertext ciphertext' : Bytes)
    → length nonce ≡ n
    → length nonce' ≡ n
    → length aad < 2 ^ 64
    → length aad' < 2 ^ 64
    → mac_input p nonce aad ciphertext ≡ mac_input p nonce' aad' ciphertext'
    → (nonce ≡ nonce') × (aad ≡ aad') × (ciphertext ≡ ciphertext')
unfolding mac_input
mac_input-injective p n nonce nonce' aad aad' ciphertext ciphertext' hn hn' ha ha' e =
    let (aad_length, e1) =
      append-split 8 _ _ _ _ (length-to_be_bytes 8 (length aad))
        (length-to_be_bytes 8 (length aad')) e in
    let (_, e2) =
      append-split 8 _ _ _ _ (length-to_be_bytes 8 (length ciphertext))
        (length-to_be_bytes 8 (length ciphertext')) e1 in
    let (same_nonce, e3) = append-split n nonce nonce' _ _ hn hn' e2 in
    let same_length = to_be_bytes-injective 8 (length aad) (length aad') ha ha' aad_length in
    let (same_aad, same_ciphertext) =
      append-split (length aad') aad aad' ciphertext ciphertext' same_length refl e3 in
    (same_nonce, same_aad, same_ciphertext)

-- With a comparison that decides equality, nonces of one length and associated data of less than
-- 2^64 bytes: if `aead_encrypt` sealed a packet with a tag and `aead_decrypt`, under the same MAC key
-- and whatever cipher key, accepts that tag on another packet, one that differs in its nonce, its
-- associated data or its ciphertext, then two different byte strings have one HMAC under the key.
pub accepted_tag_collision :
    (p : Primitives) (n : ℕ) (enc_key enc_key' mac_key nonce aad plaintext out out_tag : Bytes)
    (nonce' aad' ciphertext' buffer : Bytes) {ciphertext tag opened : Bytes}
    → ComparesBytes p
    → length nonce ≡ n
    → length nonce' ≡ n
    → length aad < 2 ^ 64
    → length aad' < 2 ^ 64
    → aead_encrypt p enc_key mac_key nonce aad plaintext out out_tag ≡ (ok tt, ciphertext, tag)
    → aead_decrypt p enc_key' mac_key nonce' aad' ciphertext' tag buffer ≡ (ok tt, opened)
    → ¬ ((nonce ≡ nonce') × (aad ≡ aad') × (ciphertext ≡ ciphertext'))
    → (mac : Bytes → Bytes) × (x : Bytes) × (y : Bytes) × (p.hmac_sha384 mac_key ≡ some mac)
      × (x ≢ y)
      × (mac x ≡ mac y)
accepted_tag_collision p n enc_key enc_key' mac_key nonce aad plaintext out out_tag nonce' aad'
      ciphertext' buffer {ciphertext} {tag} eq hn hn' ha ha' sealed accepted differs =
    let e = aead_encrypt-Encrypted p enc_key mac_key nonce aad plaintext out out_tag sealed in
    let d =
      aead_decrypt-Decrypted p enc_key' mac_key nonce' aad' ciphertext' tag buffer eq accepted in
    let one_key : e.mac ≡ d.mac = ground (arith, e.keyed, d.keyed) in
    (
      d.mac,
      mac_input p nonce aad ciphertext,
      mac_input p nonce' aad' ciphertext',
      d.keyed,
      (λ same. differs (
          mac_input-injective p n nonce nonce' aad aad' ciphertext ciphertext' hn hn' ha ha' same)),
      sym (ap (λ m. m (mac_input p nonce aad ciphertext)) one_key) ∙ sym e.tagged ∙ d.tagged,
    )
