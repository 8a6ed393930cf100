-- ===== src/Crypto/Examples/Ffi.antt =====
-- Calls of the C interface with the primitives of Toy.
use shawn_core_libraries.Base.{◌%◌, ◌≡◌, ◌↔◌, refl, false, [], arith, replicate}
use shawn_core_libraries.Crypto.Toy.{toy, toy-ComparesBytes, toy-IsStreamCipher, toy-HasMacSize}
use shawn_core_libraries.Crypto.Session.Window.{check_sequence, commit_sequence}
use shawn_core_libraries.Crypto.Session.Packet.{encrypt_packet}
use shawn_core_libraries.Crypto.Aead.{aead_encrypt}
use shawn_core_libraries.Crypto.Ffi.{
  ShawncoreCryptoErr, success, status, Layout, Host, read, ranges_overlap, range_ok,
  packet_len_valid, set_object,
}
use shawn_core_libraries.Crypto.Ffi.Ranges.{Disjoint, ranges_overlap_exact}
use shawn_core_libraries.Crypto.Ffi.Packets.{
  encrypted, decrypted, encrypt_rejects, decrypt_rejects, session_encrypt_buffers_overlap,
  session_decrypt_buffers_overlap, session_manager_encrypt_packet, session_manager_decrypt_packet,
}
use shawn_core_libraries.Crypto.Ffi.Sealing.{
  session_manager_encrypt_packet-encrypt_packet, session_manager_encrypt_packet_frame,
}
use shawn_core_libraries.Crypto.Ffi.Opening.{session_manager_decrypt_packet-decrypt_packet}
use shawn_core_libraries.Crypto.Ffi.Delivery.{Slices, sends, receives, delivered}
use shawn_core_libraries.Crypto.Ffi.Handshake.{
  session_manager_initiate_handshake, session_manager_encapsulate_for_peer,
}
use shawn_core_libraries.Crypto.Ffi.Authenticated.{
  Arguments, session_manager_encapsulate_authenticated_v2,
  session_manager_finalize_authenticated_v2,
}
use shawn_core_libraries.Crypto.Ffi.Failure.{WritesOnSuccess}
use shawn_core_libraries.Crypto.Ffi.Outputs.{handshake_calls-WritesOnSuccess}
use shawn_core_libraries.Crypto.Ffi.Wire.{
  codec_of, x25519_public_key, to_bytes, from_bytes, from_bytes-to_bytes,
}
use shawn_core_libraries.Crypto.Examples.Packets.{live, key}

abbrev layout : Layout
layout = record {
  manager_size = 512;
  manager_align = 64;
  size_of = λ kind. 2048;
  align_of = λ kind. 64;
}

-- Memory in which every address holds its last digits.
abbrev host : Host
host = record { memory = λ address. address % 256; managers = λ _. live; objects = λ _. [] }

abbrev slices : Slices
slices = record {
  manager = 1024;
  aad = 2000;
  plaintext = 3000;
  ciphertext = 4000;
  nonce = 5000;
  tag = 6000;
}

abbrev target : Slices
target = record slices { plaintext = 7000 }

accepted : encrypt_rejects layout 1024 2000 1 3000 4000 3 5000 6000 ≡ false
unfolding encrypt_rejects session_encrypt_buffers_overlap ranges_overlap range_ok packet_len_valid
accepted = refl

also_accepted : decrypt_rejects layout 1024 2000 1 4000 3 5000 6000 7000 ≡ false
unfolding decrypt_rejects session_decrypt_buffers_overlap ranges_overlap range_ok packet_len_valid
also_accepted = refl

session_manager_encrypt_packet-encrypt_packet_example :
    let (code, host') =
      session_manager_encrypt_packet layout toy host 1024 2000 1 3000 4000 3 5000 6000 in
    let (r, s, c, n, t) = encrypted layout toy host 1024 2000 1 3000 4000 3 5000 6000 in
    (code ≡ status r)
    × (host'.managers 1024 ≡ s)
    × (read host'.memory 4000 3 ≡ c)
    × (read host'.memory 5000 12 ≡ n)
    × (read host'.memory 6000 48 ≡ t)
    × (read host'.memory 3000 3 ≡ read host.memory 3000 3)
    × (read host'.memory 2000 1 ≡ read host.memory 2000 1)
    × Disjoint 4000 3 1024 512
    × Disjoint 5000 12 1024 512
    × Disjoint 6000 48 1024 512
session_manager_encrypt_packet-encrypt_packet_example =
    session_manager_encrypt_packet-encrypt_packet layout toy host 1024 2000 1 3000 4000 3 5000 6000
      toy-HasMacSize toy-IsStreamCipher accepted

session_manager_decrypt_packet-decrypt_packet_example :
    let (code, host') =
      session_manager_decrypt_packet layout toy host 1024 2000 1 4000 3 5000 6000 7000 in
    let (r, s, buffer) = decrypted layout toy host 1024 2000 1 4000 3 5000 6000 7000 in
    (code ≡ status r)
    × (host'.managers 1024 ≡ s)
    × (read host'.memory 7000 3 ≡ buffer)
    × (read host'.memory 2000 1 ≡ read host.memory 2000 1)
    × (read host'.memory 4000 3 ≡ read host.memory 4000 3)
    × (read host'.memory 5000 12 ≡ read host.memory 5000 12)
    × (read host'.memory 6000 48 ≡ read host.memory 6000 48)
    × Disjoint 7000 3 1024 512
session_manager_decrypt_packet-decrypt_packet_example =
    session_manager_decrypt_packet-decrypt_packet layout toy host 1024 2000 1 4000 3 5000 6000 7000
      toy-IsStreamCipher also_accepted

session_manager_encrypt_packet_frame_example :
    let host' =
      (session_manager_encrypt_packet layout toy host 1024 2000 1 3000 4000 3 5000 6000).1 in
    host'.memory 4003 ≡ host.memory 4003
session_manager_encrypt_packet_frame_example =
    session_manager_encrypt_packet_frame layout toy host 1024 2000 1 3000 4000 3 5000 6000 4003
      toy-HasMacSize toy-IsStreamCipher (λ (above, below). absurd (omega arith))
      (λ (above, below). absurd (omega arith)) (λ (above, below). absurd (omega arith))
      (λ (above, below). absurd (omega arith))

abbrev sent : ShawncoreCryptoErr × Host
sent = sends layout toy 1 3 host slices

sends_ok : sent.0 ≡ success
unfolding session_manager_encrypt_packet encrypt_rejects session_encrypt_buffers_overlap
    ranges_overlap range_ok packet_len_valid read encrypt_packet aead_encrypt
sends_ok = refl

-- The other side: the same bytes, and a session of its own.
abbrev receiver : Host
receiver = record sent.1 { managers = λ _. live }

delivered_example :
    let (code, receiver') = receives layout toy 1 3 receiver target in
    (code ≡ success)
    × (read receiver'.memory 7000 3 ≡ read host.memory 3000 3)
    × (receiver'.managers 1024 ≡ commit_sequence live 0)
unfolding check_sequence
delivered_example =
    delivered layout toy 1 3 host receiver slices target key toy-ComparesBytes toy-IsStreamCipher
      toy-HasMacSize accepted also_accepted refl refl refl refl refl sends_ok
      (record { same_aad = refl; same_ciphertext = refl; same_nonce = refl; same_tag = refl })

ranges_overlap_exact_example : (ranges_overlap 16 16 32 8 ≡ false) ↔ Disjoint 16 16 32 8
ranges_overlap_exact_example = ranges_overlap_exact 16 16 32 8 (omega arith) (omega arith)

abbrev arguments : Arguments
arguments = record {
  manager = 64;
  own_signing_key = 4096;
  peer_verifying_key = 8192;
  peer_ml_kem_pk = 12288;
  peer_x25519_pk = 16384;
  ml_kem_ct = 20480;
  peer_signature = 24576;
  peer_confirmation = 28672;
  entropy = 32768;
  salt = 0;
  salt_len = 0;
  app_info = 0;
  app_info_len = 0;
  out_ct = 36864;
  out_my_x25519_pk = 40960;
  out_signature = 45056;
  out_confirmation = 49152;
}

handshake_calls-WritesOnSuccess_example :
    WritesOnSuccess layout host 64
      (session_manager_initiate_handshake layout toy host 64 32768 12288 40960)
    × WritesOnSuccess layout host 64 (
        session_manager_encapsulate_for_peer layout toy host 64 12288 16384 32768 0 0 0 0 36864
          40960)
    × WritesOnSuccess layout host 64
        (session_manager_encapsulate_authenticated_v2 layout toy host arguments)
    × WritesOnSuccess layout host 64
        (session_manager_finalize_authenticated_v2 layout toy host arguments)
handshake_calls-WritesOnSuccess_example = handshake_calls-WritesOnSuccess layout toy host arguments

-- An X25519 public key at address 64.
abbrev with_key : Host
with_key = record host { objects = λ _. replicate 32 9 }

abbrev encoded : ShawncoreCryptoErr × Host
encoded = to_bytes layout (codec_of toy x25519_public_key) with_key 64 4096 32

from_bytes-to_bytes_example :
    from_bytes layout (codec_of toy x25519_public_key) encoded.1 4096 32 8192 ≡ (
      success,
      record encoded.1 { objects = set_object encoded.1.objects 8192 (with_key.objects 64) },
    )
unfolding to_bytes from_bytes ranges_overlap
from_bytes-to_bytes_example =
    from_bytes-to_bytes toy layout x25519_public_key with_key encoded.1 64 4096 32 4096 8192 refl
      refl refl
      (record {
        bytes_there = λ e. absurd (omega arith);
        out_there = λ e. absurd (omega arith);
        aligned = refl;
        apart = refl;
      })
