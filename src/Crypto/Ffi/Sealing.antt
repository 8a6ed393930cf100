-- ===== src/Crypto/Ffi/Sealing.antt =====
-- shawncore_crypto_session_manager_encrypt_packet of ffi.rs: what it reads and writes.
use shawn_core_libraries.Base.{
  ℕ, ◌≡◌, refl, sym, ◌∙◌, take, drop, false, length, length-replicate, length-append, replicate,
  Bytes, Bool-cases, Option-cases, inl, inr, arith,
}
use shawn_core_libraries.Base.Encoding.{to_le_bytes, length-to_le_bytes}
use shawn_core_libraries.Crypto.Primitives.{Primitives, HasMacSize, IsStreamCipher}
use shawn_core_libraries.Crypto.Aead.{aead_encrypt, mac_input}
use shawn_core_libraries.Crypto.Session.State.{SessionManager}
use shawn_core_libraries.Crypto.Session.Window.{nonce_of}
use shawn_core_libraries.Crypto.Session.Packet.{encrypt_packet}
use shawn_core_libraries.Crypto.Ffi.{status, Layout, Host, read}
use shawn_core_libraries.Crypto.Ffi.Ranges.{
  InRange, Disjoint, Disjoint-sym, ranges_overlap-Disjoint,
}
use shawn_core_libraries.Crypto.Ffi.Memory.{
  length-read, three_writes, three_writes_other, three_writes_outside,
}
use shawn_core_libraries.Crypto.Ffi.Packets.{
  session_encrypt_buffers_overlap, encrypt_rejects, encrypted, session_manager_encrypt_packet,
}

length-nonce_of : (n : ℕ) → length (nonce_of n) ≡ 12
unfolding nonce_of
length-nonce_of n =
    omega (arith, length-append (to_le_bytes 8 n) (replicate 4 0), length-to_le_bytes 8 n)

module _ (p : Primitives) where
  -- The buffers keep their lengths.
  length-aead_encrypt :
      (enc_key mac_key nonce aad plaintext ciphertext tag : Bytes)
      → HasMacSize p
      → IsStreamCipher p
      → length plaintext ≡ length ciphertext
      → length tag ≡ 48
      → let (r, c, t) = aead_encrypt p enc_key mac_key nonce aad plaintext ciphertext tag in
        (length c ≡ length ciphertext) × (length t ≡ 48)
  unfolding aead_encrypt
  length-aead_encrypt enc_key mac_key nonce aad plaintext ciphertext tag mac_size cipher same size =
      elim (Option-cases (p.chacha20 enc_key nonce)) [
        | inl no_cipher ↦ ground arith
        | inr (apply, built) ↦ elim (Option-cases (apply plaintext)) [
          | inl refused ↦ ground (arith, length-replicate {A = ℕ} (length plaintext) 0)
          | inr (encrypted', applied) ↦
              let kept = cipher.length_kept enc_key nonce plaintext built applied in
              elim (Option-cases (p.hmac_sha384 mac_key)) [
                | inl no_key ↦ ground arith
                | inr (mac, keyed) ↦
                    ground (arith, mac_size mac_key (mac_input p nonce aad encrypted') mac keyed)
              ]
        ]
      ]

  length-encrypt_packet :
      (s : SessionManager) (aad plaintext ciphertext nonce tag : Bytes)
      → HasMacSize p
      → IsStreamCipher p
      → length plaintext ≡ length ciphertext
      → length nonce ≡ 12
      → length tag ≡ 48
      → let (r, s', c, n, t) = encrypt_packet p s aad plaintext ciphertext nonce tag in
        (length c ≡ length ciphertext) × (length n ≡ 12) × (length t ≡ 48)
  unfolding encrypt_packet
  length-encrypt_packet s aad plaintext ciphertext nonce tag mac_size cipher same n_size t_size =
      elim (Option-cases s.tx_key) [
        | inl no_key ↦ ground arith
        | inr (key, has_key) ↦ ground (
          arith,
          length-aead_encrypt (take 32 key) (drop 32 key) (nonce_of s.tx_counter) aad plaintext
              ciphertext tag mac_size cipher same t_size,
          length-nonce_of s.tx_counter,
        )
      ]

module _ (layout : Layout) (p : Primitives) where
  -- What the overlap tests of the call leave apart.
  record Separate (manager aad aad_len plaintext ciphertext data_len out_nonce out_tag : ℕ)
      : Type 0 where
    cipher_plain : Disjoint ciphertext data_len plaintext data_len
    cipher_aad : Disjoint ciphertext data_len aad aad_len
    cipher_manager : Disjoint ciphertext data_len manager layout.manager_size
    nonce_plain : Disjoint out_nonce 12 plaintext data_len
    nonce_aad : Disjoint out_nonce 12 aad aad_len
    nonce_cipher : Disjoint ciphertext data_len out_nonce 12
    nonce_manager : Disjoint out_nonce 12 manager layout.manager_size
    tag_plain : Disjoint out_tag 48 plaintext data_len
    tag_aad : Disjoint out_tag 48 aad aad_len
    tag_cipher : Disjoint ciphertext data_len out_tag 48
    tag_nonce : Disjoint out_nonce 12 out_tag 48
    tag_manager : Disjoint out_tag 48 manager layout.manager_size

  accepted-Separate :
      (manager aad aad_len plaintext ciphertext data_len out_nonce out_tag : ℕ)
      → encrypt_rejects layout manager aad aad_len plaintext ciphertext data_len out_nonce out_tag
        ≡ false
      → Separate manager aad aad_len plaintext ciphertext data_len out_nonce out_tag
  unfolding encrypt_rejects session_encrypt_buffers_overlap
  accepted-Separate manager aad aad_len plaintext ciphertext data_len out_nonce out_tag h = record {
    cipher_plain = ranges_overlap-Disjoint ciphertext data_len plaintext data_len (ground arith);
    cipher_aad = ranges_overlap-Disjoint ciphertext data_len aad aad_len (ground arith);
    cipher_manager =
        Disjoint-sym manager layout.manager_size ciphertext data_len
          (ranges_overlap-Disjoint manager layout.manager_size ciphertext data_len (ground arith));
    nonce_plain = ranges_overlap-Disjoint out_nonce 12 plaintext data_len (ground arith);
    nonce_aad = ranges_overlap-Disjoint out_nonce 12 aad aad_len (ground arith);
    nonce_cipher = ranges_overlap-Disjoint ciphertext data_len out_nonce 12 (ground arith);
    nonce_manager =
        Disjoint-sym manager layout.manager_size out_nonce 12
          (ranges_overlap-Disjoint manager layout.manager_size out_nonce 12 (ground arith));
    tag_plain = ranges_overlap-Disjoint out_tag 48 plaintext data_len (ground arith);
    tag_aad = ranges_overlap-Disjoint out_tag 48 aad aad_len (ground arith);
    tag_cipher = ranges_overlap-Disjoint ciphertext data_len out_tag 48 (ground arith);
    tag_nonce = ranges_overlap-Disjoint out_nonce 12 out_tag 48 (ground arith);
    tag_manager =
        Disjoint-sym manager layout.manager_size out_tag 48
          (ranges_overlap-Disjoint manager layout.manager_size out_tag 48 (ground arith));
  }

  length-encrypted :
      (host : Host) (manager aad aad_len plaintext ciphertext data_len out_nonce out_tag : ℕ)
      → HasMacSize p
      → IsStreamCipher p
      → let (r, s, c, n, t) =
          encrypted layout p host manager aad aad_len plaintext ciphertext data_len out_nonce
            out_tag in
        (length c ≡ data_len) × (length n ≡ 12) × (length t ≡ 48)
  length-encrypted host manager aad aad_len plaintext ciphertext data_len out_nonce out_tag mac_size
        cipher =
      let (c_size, n_size, t_size) =
        length-encrypt_packet p (host.managers manager) (read host.memory aad aad_len)
          (read host.memory plaintext data_len) (read host.memory ciphertext data_len)
          (read host.memory out_nonce 12) (read host.memory out_tag 48) mac_size cipher
          (length-read host.memory plaintext data_len
            ∙ sym (length-read host.memory ciphertext data_len))
          (length-read host.memory out_nonce 12) (length-read host.memory out_tag 48) in
      (c_size ∙ length-read host.memory ciphertext data_len, n_size, t_size)

  -- With tags of 48 bytes and a cipher that keeps its laws: a call of
  -- shawncore_crypto_session_manager_encrypt_packet that passes the checks on its pointers answers
  -- as `encrypt_packet` does on the session and the slices that the pointers name; the slices of
  -- the ciphertext, the nonce and the tag then hold exactly what `encrypt_packet` returned, the
  -- plaintext and the associated data are as before, and none of the three slices written shares an
  -- address with the manager object.
  pub session_manager_encrypt_packet-encrypt_packet :
      (host : Host) (manager aad aad_len plaintext ciphertext data_len out_nonce out_tag : ℕ)
      → HasMacSize p
      → IsStreamCipher p
      → encrypt_rejects layout manager aad aad_len plaintext ciphertext data_len out_nonce out_tag
        ≡ false
      → let (code, host') =
          session_manager_encrypt_packet layout p host manager aad aad_len plaintext ciphertext
            data_len out_nonce out_tag in
        let (r, s, c, n, t) =
          encrypted layout p host manager aad aad_len plaintext ciphertext data_len out_nonce
            out_tag in
        (code ≡ status r)
        × (host'.managers manager ≡ s)
        × (read host'.memory ciphertext data_len ≡ c)
        × (read host'.memory out_nonce 12 ≡ n)
        × (read host'.memory out_tag 48 ≡ t)
        × (read host'.memory plaintext data_len ≡ read host.memory plaintext data_len)
        × (read host'.memory aad aad_len ≡ read host.memory aad aad_len)
        × Disjoint ciphertext data_len manager layout.manager_size
        × Disjoint out_nonce 12 manager layout.manager_size
        × Disjoint out_tag 48 manager layout.manager_size
  unfolding session_manager_encrypt_packet
  session_manager_encrypt_packet-encrypt_packet host manager aad aad_len plaintext ciphertext
        data_len out_nonce out_tag mac_size cipher accepted =
      let (r, s, c, n, t) =
        encrypted layout p host manager aad aad_len plaintext ciphertext data_len out_nonce
          out_tag in
      let (c_size, n_size, t_size) =
        length-encrypted host manager aad aad_len plaintext ciphertext data_len out_nonce out_tag
          mac_size cipher in
      let d =
        accepted-Separate manager aad aad_len plaintext ciphertext data_len out_nonce out_tag
          accepted in
      let (ct, nonce, tag) =
        three_writes host.memory ciphertext data_len out_nonce 12 out_tag 48 c n t c_size n_size
          t_size d.nonce_cipher d.tag_cipher d.tag_nonce in
      rw accepted (
        refl,
        ground arith,
        ct,
        nonce,
        tag,
        three_writes_other host.memory ciphertext data_len out_nonce 12 out_tag 48 plaintext
            data_len c n t c_size n_size t_size d.cipher_plain d.nonce_plain d.tag_plain,
        three_writes_other host.memory ciphertext data_len out_nonce 12 out_tag 48 aad aad_len c n t
            c_size n_size t_size d.cipher_aad d.nonce_aad d.tag_aad,
        d.cipher_manager,
        d.nonce_manager,
        d.tag_manager,
      )

  -- With tags of 48 bytes and a cipher that keeps its laws: whatever the call of
  -- shawncore_crypto_session_manager_encrypt_packet answers, it changes no byte outside the slices
  -- of the ciphertext, the nonce and the tag and outside the manager object.
  pub session_manager_encrypt_packet_frame :
      (host : Host)
      (manager aad aad_len plaintext ciphertext data_len out_nonce out_tag address : ℕ)
      → HasMacSize p
      → IsStreamCipher p
      → ¬ InRange ciphertext data_len address
      → ¬ InRange out_nonce 12 address
      → ¬ InRange out_tag 48 address
      → ¬ InRange manager layout.manager_size address
      → let host' =
          (session_manager_encrypt_packet layout p host manager aad aad_len plaintext ciphertext
            data_len out_nonce out_tag).1 in
        host'.memory address ≡ host.memory address
  unfolding session_manager_encrypt_packet
  session_manager_encrypt_packet_frame host manager aad aad_len plaintext ciphertext data_len
        out_nonce out_tag address mac_size cipher not_c not_n not_t not_m =
      elim (Bool-cases (
        encrypt_rejects layout manager aad aad_len plaintext ciphertext data_len out_nonce
          out_tag)) [
            | inl rejected ↦ rw rejected refl
            | inr accepted ↦
                let (r, s, c, n, t) =
                  encrypted layout p host manager aad aad_len plaintext ciphertext data_len
                    out_nonce out_tag in
                let (c_size, n_size, t_size) =
                  length-encrypted host manager aad aad_len plaintext ciphertext data_len out_nonce
                    out_tag mac_size cipher in
                rw accepted (
                  three_writes_outside host.memory ciphertext data_len out_nonce 12 out_tag 48
                    address c n t c_size n_size t_size not_c not_n not_t)
          ]
