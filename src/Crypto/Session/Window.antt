-- ===== src/Crypto/Session/Window.antt =====
-- Nonces and the 64-packet replay window of session_manager.rs. A nonce is 12 bytes: a
-- little-endian 64-bit sequence number and four zero bytes.
use shawn_core_libraries.Base.{
  ℕ, ◌+◌, ◌-◌, ◌*◌, ◌%◌, ◌^◌, not, ◌||◌, ok, err, if◌then◌else◌, ltb, leb, ◌==◌, ◌++◌, take, drop,
  replicate, bit_and, bit_or, Bytes,
}
use shawn_core_libraries.Base.Encoding.{to_le_bytes, from_le_bytes, all_equal}
use shawn_core_libraries.Crypto.Error.{Outcome, invalid_state}
use shawn_core_libraries.Crypto.Session.State.{SessionManager}

abbrev pub u64_max : ℕ
u64_max = 2 ^ 64 - 1

-- The first eight bytes, `u64::from_le_bytes`.
unfoldable pub sequence_of : Bytes → ℕ
sequence_of nonce = from_le_bytes (take 8 nonce)

-- `nonce[..8] = counter.to_le_bytes(); nonce[8..].fill(0)`.
unfoldable pub nonce_of : ℕ → Bytes
nonce_of counter = to_le_bytes 8 counter ++ replicate 4 0

-- `checked_add(1)` cannot fail below `u64::MAX`; both tests are kept. The second component is
-- the nonce buffer.
unfoldable pub get_next_tx_nonce :
    SessionManager → Bytes → Outcome (Unit {0}) × SessionManager × Bytes
get_next_tx_nonce s nonce =
    if s.tx_counter == u64_max
    then (err invalid_state, s, nonce)
    else if ltb u64_max (s.tx_counter + 1)
    then (err invalid_state, s, nonce_of s.tx_counter)
    else (ok tt, record s { tx_counter = s.tx_counter + 1 }, nonce_of s.tx_counter)

-- `check_rx_nonce` from the decoded sequence number on.
unfoldable pub check_sequence : SessionManager → ℕ → Outcome (Unit {0})
check_sequence s sequence =
    if ltb s.rx_counter sequence
    then ok tt
    else if leb 64 (s.rx_counter - sequence)
        || not (bit_and s.rx_window (2 ^ (s.rx_counter - sequence)) == 0)
    then err invalid_state
    else ok tt

unfoldable pub check_rx_nonce : SessionManager → Bytes → Outcome (Unit {0})
unfolding check_sequence sequence_of
check_rx_nonce s host_nonce =
    if not (all_equal 0 (drop 8 host_nonce))
    then err invalid_state
    else check_sequence s (sequence_of host_nonce)

-- The window moved on by `shift`, with the newest number recorded. A left shift drops the bits above 63.
abbrev window_after : ℕ → ℕ → ℕ
window_after window shift = if leb 64 shift then 1 else bit_or (window * 2 ^ shift % 2 ^ 64) 1

-- `commit_rx_nonce` from the decoded sequence number on.
unfoldable pub commit_sequence : SessionManager → ℕ → SessionManager
commit_sequence s sequence =
    if ltb s.rx_counter sequence
    then record s {
      rx_window = window_after s.rx_window (sequence - s.rx_counter);
      rx_counter = sequence;
    }
    else if leb 64 (s.rx_counter - sequence)
    then s
    else record s { rx_window = bit_or s.rx_window (2 ^ (s.rx_counter - sequence)) }

unfoldable pub commit_rx_nonce : SessionManager → Bytes → SessionManager
unfolding commit_sequence sequence_of
commit_rx_nonce s host_nonce = commit_sequence s (sequence_of host_nonce)
