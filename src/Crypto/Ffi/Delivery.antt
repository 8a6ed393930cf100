-- ===== src/Crypto/Ffi/Delivery.antt =====
-- A packet between two hosts, through the C calls of ffi.rs on both sides.
use shawn_core_libraries.Base.{
  ℕ, ◌≡◌, refl, sym, ap, ◌∙◌, true, false, none, some, ok, err, Bytes, arith,
}
use shawn_core_libraries.Crypto.Error
use shawn_core_libraries.Crypto.Error.{CryptoError, Outcome}
use shawn_core_libraries.Crypto.Primitives.{Primitives, ComparesBytes, HasMacSize, IsStreamCipher}
use shawn_core_libraries.Crypto.Session.Window.{check_sequence, commit_sequence}
use shawn_core_libraries.Crypto.Session.Traffic.{packet_round_trip}
use shawn_core_libraries.Crypto.Ffi.{ShawncoreCryptoErr, success, status, Layout, Host, read}
use shawn_core_libraries.Crypto.Ffi.Memory.{length-read}
use shawn_core_libraries.Crypto.Ffi.Packets.{
  decrypt_rejects, decrypted, encrypted, encrypt_rejects, session_manager_encrypt_packet,
  session_manager_decrypt_packet,
}
use shawn_core_libraries.Crypto.Ffi.Sealing.{session_manager_encrypt_packet-encrypt_packet}
use shawn_core_libraries.Crypto.Ffi.Opening.{session_manager_decrypt_packet-decrypt_packet}

-- No error is reported as success.
status_success : (r : Outcome (Unit {0})) → status r ≡ success → r ≡ ok tt
status_success (ok tt) h = refl
status_success (err Error.invalid_state) h = absurd (ground arith)
status_success (err Error.invalid_length) h = absurd (ground arith)
status_success (err Error.hkdf_error) h = absurd (ground arith)
status_success (err Error.verification_failed) h = absurd (ground arith)
status_success (err Error.entropy_starvation) h = absurd (ground arith)
status_success (err Error.entropy_busy) h = absurd (ground arith)
status_success (err Error.key_confirmation_failed) h = absurd (ground arith)

-- The slices that a packet call names, of the sender or of the receiver.
pub record Slices : Type 0 where
  pub manager : ℕ
  pub aad : ℕ
  pub plaintext : ℕ
  pub ciphertext : ℕ
  pub nonce : ℕ
  pub tag : ℕ

module _ (layout : Layout) (p : Primitives) (aad_len data_len : ℕ) where
  abbrev pub sends : Host → Slices → ShawncoreCryptoErr × Host
  sends host a =
      session_manager_encrypt_packet layout p host a.manager a.aad aad_len a.plaintext a.ciphertext
        data_len a.nonce a.tag

  abbrev pub receives : Host → Slices → ShawncoreCryptoErr × Host
  receives host b =
      session_manager_decrypt_packet layout p host b.manager b.aad aad_len b.ciphertext data_len
        b.nonce b.tag b.plaintext

  -- The receiver's slices hold what the sender's hold.
  pub record Delivered (sender : Host) (a : Slices) (receiver : Host) (b : Slices) : Type 0 where
    pub same_aad : read receiver.memory b.aad aad_len ≡ read sender.memory a.aad aad_len
    pub same_ciphertext :
        read receiver.memory b.ciphertext data_len ≡ read sender.memory a.ciphertext data_len
    pub same_nonce : read receiver.memory b.nonce 12 ≡ read sender.memory a.nonce 12
    pub same_tag : read receiver.memory b.tag 48 ≡ read sender.memory a.tag 48

  -- Primitives that keep their laws, pointers that both calls accept, a receiver that is established
  -- and confirmed, holds the sender's transmit key and admits the sender's counter: if the
  -- encrypting call answers `Success` and the receiver's slices hold the associated data, the
  -- ciphertext, the nonce and the tag that the sender's hold afterwards, the decrypting call answers
  -- `Success`, its plaintext slice holds the sender's plaintext, and the sender's counter is
  -- committed.
  pub delivered :
      (sender receiver : Host) (a b : Slices) (key : Bytes)
      → ComparesBytes p
      → IsStreamCipher p
      → HasMacSize p
      → encrypt_rejects layout a.manager a.aad aad_len a.plaintext a.ciphertext data_len a.nonce
          a.tag
        ≡ false
      → decrypt_rejects layout b.manager b.aad aad_len b.ciphertext data_len b.nonce b.tag
          b.plaintext
        ≡ false
      → (sender.managers a.manager).tx_key ≡ some key
      → (receiver.managers b.manager).rx_key ≡ some key
      → (receiver.managers b.manager).is_established ≡ true
      → (receiver.managers b.manager).pending_auth ≡ none
      → check_sequence (receiver.managers b.manager) (sender.managers a.manager).tx_counter ≡ ok tt
      → (sends sender a).0 ≡ success
      → Delivered (sends sender a).1 a receiver b
      → let (code, receiver') = receives receiver b in
        (code ≡ success)
        × (read receiver'.memory b.plaintext data_len ≡ read sender.memory a.plaintext data_len)
        × (receiver'.managers b.manager
            ≡ commit_sequence (receiver.managers b.manager) (sender.managers a.manager).tx_counter)
  delivered sender receiver a b key eq cipher mac_size enc_ok dec_ok ks kr up conf fresh sent same =
      let (code, _, ct, nonce, tag, _, aad, _, _, _) =
        session_manager_encrypt_packet-encrypt_packet layout p sender a.manager a.aad aad_len
          a.plaintext a.ciphertext data_len a.nonce a.tag mac_size cipher enc_ok in
      let (r, s, c, n, t) =
        encrypted layout p sender a.manager a.aad aad_len a.plaintext a.ciphertext data_len a.nonce
          a.tag in
      let sealed : r ≡ ok tt = status_success r (sym code ∙ sent) in
      let opened =
        packet_round_trip p (sender.managers a.manager) (receiver.managers b.manager)
          (read sender.memory a.aad aad_len) (read sender.memory a.plaintext data_len)
          (read sender.memory a.ciphertext data_len) (read sender.memory a.nonce 12)
          (read sender.memory a.tag 48) (read receiver.memory b.plaintext data_len) key eq cipher ks
          kr up conf
          (length-read receiver.memory b.plaintext data_len
            ∙ sym (length-read sender.memory a.plaintext data_len))
          fresh (ap (λ x. (x, s, c, n, t)) sealed) in
      let (code', manager', plain, _, _, _, _, _) =
        session_manager_decrypt_packet-decrypt_packet layout p receiver b.manager b.aad aad_len
          b.ciphertext data_len b.nonce b.tag b.plaintext cipher dec_ok in
      let whole : decrypted layout p receiver b.manager b.aad aad_len b.ciphertext data_len b.nonce
            b.tag b.plaintext
          ≡ (
            ok tt,
            commit_sequence (receiver.managers b.manager) (sender.managers a.manager).tx_counter,
            read sender.memory a.plaintext data_len,
          ) =
        rw
          (
            same.same_aad ∙ aad,
            same.same_ciphertext ∙ ct,
            same.same_nonce ∙ nonce,
            same.same_tag ∙ tag,
          )
          opened in
      (
        code' ∙ ap (λ x. status x.0) whole,
        plain ∙ ap (λ x. x.2) whole,
        manager' ∙ ap (λ x. x.1) whole,
      )
