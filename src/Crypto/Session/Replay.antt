-- ===== src/Crypto/Session/Replay.antt =====
-- The replay window of session_manager.rs and the set of sequence numbers that it stands for.
use shawn_core_libraries.Base.{
  ℕ, ◌+◌, ◌-◌, ◌*◌, ◌%◌, ◌^◌, ◌≤◌, ◌<◌, Bool, false, not, ◌||◌, ok, if◌then◌else◌, ltb, ◌==◌, ◌≡◌,
  ap, ◌⊎◌, ◌↔◌, bit_and, arith,
}
use shawn_core_libraries.Base.Bits.{
  bit, bit-le-one, bit-bit_or, pow_bit, bit_and-pow, bit-shl_above, bit-shl_below, bit-mod, pow-pos,
}
use shawn_core_libraries.Crypto.Session.State.{SessionManager}
use shawn_core_libraries.Crypto.Session.Window.{check_sequence, commit_sequence}

-- A set of sequence numbers.
abbrev pub Seen : Type 0
Seen = ℕ → Bool

abbrev pub mark : ℕ → Seen → Seen
mark q seen j = (j == q) || seen j

-- No number above the counter is in the set; below it the window answers for the last 64.
pub record Tracks (s : SessionManager) (seen : Seen) : Type 0 where
  pub top : (q : ℕ) → s.rx_counter < q → seen q ≡ false
  pub recent :
      (d : ℕ)
      → d < 64
      → d ≤ s.rx_counter
      → bit s.rx_window d ≡ (if seen (s.rx_counter - d) then 1 else 0)

-- The mask test of the code reads one bit.
mask_test : (w k : ℕ) → not (bit_and w (2 ^ k) == 0) ≡ (bit w k == 1)
mask_test w k =
    ground (arith, bit_and-pow w k, bit-le-one w k, pow-pos k, ap (λ (x : ℕ). x * 2 ^ k))

-- If the window tracks a set of sequence numbers, a number is accepted exactly if it is above the
-- counter, or among the last 64 and not yet in the set.
pub check_sequence_exact :
    (s : SessionManager) (seen : Seen) (q : ℕ)
    → Tracks s seen
    → (check_sequence s q ≡ ok tt)
      ↔ ((s.rx_counter < q) ⊎ ((s.rx_counter - q < 64) × (seen q ≡ false)))
unfolding check_sequence
check_sequence_exact s seen q t = (only_if, if_so)
  where
    same : q ≤ s.rx_counter → s.rx_counter - (s.rx_counter - q) ≡ q
    same h = omega arith

    only_if :
        check_sequence s q ≡ ok tt
        → (s.rx_counter < q) ⊎ ((s.rx_counter - q < 64) × (seen q ≡ false))
    only_if h = ground (
      arith,
      mask_test s.rx_window (s.rx_counter - q),
      t.recent (s.rx_counter - q),
      same,
      ap seen {x = s.rx_counter - (s.rx_counter - q)} {y = q},
    )

    if_so :
        (s.rx_counter < q) ⊎ ((s.rx_counter - q < 64) × (seen q ≡ false))
        → check_sequence s q ≡ ok tt
    if_so h = ground (
      arith,
      mask_test s.rx_window (s.rx_counter - q),
      t.recent (s.rx_counter - q),
      same,
      ap seen {x = s.rx_counter - (s.rx_counter - q)} {y = q},
    )

-- One bit of the shifted window.
shifted_bit :
    (w s d : ℕ) → d < 64 → bit (w * 2 ^ s % 2 ^ 64) d ≡ (if ltb d s then 0 else bit w (d - s))
shifted_bit w s d h = ground (
  arith,
  bit-mod (w * 2 ^ s) 64 d h,
  bit-shl_below w s d,
  bit-shl_above w s (d - s),
  ap (bit (w * 2 ^ s)) {x = s + (d - s)} {y = d},
)

-- If the window tracks a set of sequence numbers, then after committing a number above the counter
-- or among the last 64 it tracks the set with exactly that number added.
pub commit_sequence-Tracks :
    (s : SessionManager) (seen : Seen) (q : ℕ)
    → Tracks s seen
    → (s.rx_counter < q) ⊎ (s.rx_counter - q < 64)
    → Tracks (commit_sequence s q) (mark q seen)
unfolding commit_sequence
commit_sequence-Tracks s seen q t h = record {
  top = λ j above. ground (arith, t.top j);
  recent = λ d small within. ground (
    arith,
    bit-bit_or (s.rx_window * 2 ^ (q - s.rx_counter) % 2 ^ 64) 1 d,
    bit-bit_or s.rx_window (2 ^ (s.rx_counter - q)) d,
    pow_bit 0 d,
    pow_bit (s.rx_counter - q) d,
    shifted_bit s.rx_window (q - s.rx_counter) d small,
    t.recent (d - (q - s.rx_counter)),
    t.recent d,
    t.top (q - d),
    bit-le-one s.rx_window d,
    ap seen {x = s.rx_counter - (d - (q - s.rx_counter))} {y = q - d},
  );
}
