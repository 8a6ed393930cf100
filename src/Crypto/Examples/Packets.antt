-- ===== src/Crypto/Examples/Packets.antt =====
-- The packet layer of session_manager.rs and aead_wrapper.rs, run with the primitives of Toy.
use mathlib.Core.List.{Nodup}
use shawn_core_libraries.Base.{
  ℕ, ◌-◌, ◌<◌, true, false, some, ok, ◌≡◌, ◌≢◌, refl, ◌⊎◌, inl, ◌↔◌, List, [], ◌∷◌, replicate, drop,
  Bytes, arith,
}
use shawn_core_libraries.Crypto.Error.{Outcome}
use shawn_core_libraries.Crypto.Toy.{toy, total, same, toy-ComparesBytes, toy-IsStreamCipher}
use shawn_core_libraries.Crypto.Session.State.{SessionManager, new}
use shawn_core_libraries.Base.Bits.{bit-zero}
use shawn_core_libraries.Base.Encoding.{all_equal, to_be_bytes, to_le_bytes, from_le_bytes}
use shawn_core_libraries.Crypto.Aead.{aead_encrypt, aead_decrypt, mac_input}
use shawn_core_libraries.Crypto.Aead.Unambiguous.{accepted_tag_collision}
use shawn_core_libraries.Crypto.Session.Window.{
  check_sequence, commit_sequence, nonce_of, check_rx_nonce, get_next_tx_nonce, commit_rx_nonce,
}
use shawn_core_libraries.Crypto.Session.Packet.{encrypt_packet, decrypt_packet}
use shawn_core_libraries.Crypto.Session.Replay.{
  Seen, mark, Tracks, check_sequence_exact, commit_sequence-Tracks,
}
use shawn_core_libraries.Crypto.Session.Traffic.{packet_round_trip}
use shawn_core_libraries.Crypto.Session.History.{
  Call, encrypt, next_nonce, decrypt, step, events, nonces, sequences,
}
use shawn_core_libraries.Crypto.Session.History.Distinct.{nonces_distinct, no_replay}

abbrev pub key : Bytes
key = replicate 64 3

-- An established session that sends and receives under one key.
abbrev pub live : SessionManager
live = record new { tx_key = some key; rx_key = some key; is_established = true }

abbrev text : Bytes
text = 10 ∷ 20 ∷ 30 ∷ []

abbrev sealed : Outcome (Unit {0}) × SessionManager × Bytes × Bytes × Bytes
sealed = encrypt_packet toy live (4 ∷ []) text (replicate 3 0) [] []

seals : sealed ≡ (ok tt, sealed.1, sealed.2, sealed.3, sealed.4)
unfolding encrypt_packet aead_encrypt
seals = refl

packet_round_trip_example :
    decrypt_packet toy live (4 ∷ []) sealed.2 sealed.3 sealed.4 (replicate 3 0)
    ≡ (ok tt, commit_sequence live 0, text)
unfolding check_sequence
packet_round_trip_example =
    packet_round_trip toy live live (4 ∷ []) text (replicate 3 0) [] [] (replicate 3 0) key
      toy-ComparesBytes toy-IsStreamCipher refl refl refl refl refl refl seals

-- A packet with a sequence number and the tag that the key gives it.
abbrev packet : ℕ → Call
packet n =
    decrypt [] (9 ∷ []) (nonce_of n)
      (total (drop 32 key) ∷ total (mac_input toy (nonce_of n) [] (9 ∷ [])) ∷ replicate 46 0)
      (0 ∷ [])

-- Two packets, one of them twice, between two that are sent.
abbrev calls : List Call
calls = encrypt [] (1 ∷ []) (0 ∷ []) [] [] ∷ packet 5 ∷ packet 3 ∷ packet 5 ∷ next_nonce [] ∷ []

calls_test : sequences (events toy live calls) ≡ 5 ∷ 3 ∷ []
unfolding events sequences step encrypt_packet aead_encrypt decrypt_packet check_rx_nonce all_equal
    nonce_of to_le_bytes from_le_bytes aead_decrypt same to_be_bytes commit_rx_nonce
    get_next_tx_nonce
calls_test = refl

no_replay_example : Nodup (sequences (events toy live calls))
no_replay_example = no_replay toy live calls (omega arith) refl

nonces_distinct_example : Nodup (nonces (events toy live calls))
nonces_distinct_example = nonces_distinct toy live calls (omega arith)

abbrev nothing : Seen
nothing = λ _. false

new-Tracks : Tracks new nothing
new-Tracks = record { top = λ q above. refl; recent = λ d small within. bit-zero d }

commit_sequence-Tracks_example : Tracks (commit_sequence new 5) (mark 5 nothing)
commit_sequence-Tracks_example = commit_sequence-Tracks new nothing 5 new-Tracks (inl (omega arith))

-- The session `new` after packet 5: it is not accepted again.
check_sequence_exact_example :
    let s = commit_sequence new 5 in
    (check_sequence s 5 ≡ ok tt)
    ↔ ((s.rx_counter < 5) ⊎ ((s.rx_counter - 5 < 64) × (mark 5 nothing 5 ≡ false)))
check_sequence_exact_example =
    check_sequence_exact (commit_sequence new 5) (mark 5 nothing) 5
      (commit_sequence-Tracks new nothing 5 new-Tracks (inl (omega arith)))

abbrev swapped : Outcome (Unit {0}) × Bytes × Bytes
swapped = aead_encrypt toy (1 ∷ []) (2 ∷ []) (3 ∷ []) (4 ∷ []) text (replicate 3 0) []

-- The toy's MAC only adds up, so that a nonce and the data may change places under one tag.
accepted_tag_collision_example :
    (mac : Bytes → Bytes) × (x : Bytes) × (y : Bytes) × (toy.hmac_sha384 (2 ∷ []) ≡ some mac)
    × (x ≢ y)
    × (mac x ≡ mac y)
unfolding aead_encrypt aead_decrypt to_be_bytes same
accepted_tag_collision_example =
    accepted_tag_collision toy 1 (1 ∷ []) (1 ∷ []) (2 ∷ []) (3 ∷ []) (4 ∷ []) text (replicate 3 0)
      [] (4 ∷ []) (3 ∷ []) swapped.1 (replicate 3 0) toy-ComparesBytes refl refl (omega arith)
      (omega arith) refl refl (λ (same_nonce, _, _). absurd (ground arith))
