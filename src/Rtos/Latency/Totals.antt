-- ===== src/Rtos/Latency/Totals.antt =====
-- Any sequence of marks on a tracker of latency_tracker.rs.
use shawn_core_libraries.Base.{
  ℕ, ◌+◌, ◌-◌, ◌%◌, ◌^◌, ◌≤◌, ◌<◌, min, max, ◌≡◌, Bool, true, false, not, ◌||◌, List, [], ◌∷◌,
  length, if◌then◌else◌, ltb, arith,
}
use shawn_core_libraries.Rtos.Latency.{LatencyTracker, new, mark_start, mark_end}

pub data Mark : Type 0 where
  starts : (timestamp : ℕ) → Mark
  ends : (timestamp : ℕ) → Mark

unfoldable pub marked : LatencyTracker → List Mark → LatencyTracker
marked t [] = t
marked t (starts now ∷ ms) = marked (mark_start t now) ms
marked t (ends now ∷ ms) = marked (mark_end t now) ms

-- The completed measurements: an end counts if a start is open and not later, and closes it. An
-- end that lies before the start leaves it open.
unfoldable pub deltas : (running : Bool) (start : ℕ) → List Mark → List ℕ
deltas running start [] = []
deltas running start (starts now ∷ ms) = deltas true now ms
deltas running start (ends now ∷ ms) =
    let ignored = deltas running start ms in
    let closed = deltas false start ms in
    if not running || ltb now start then ignored else (now - start) ∷ closed

abbrev pub sum : List ℕ → ℕ
sum [] = 0
sum (n ∷ ns) = n + sum ns

abbrev pub largest : List ℕ → ℕ
largest [] = 0
largest (n ∷ ns) = max n (largest ns)

marked_from :
    (t : LatencyTracker) (ms : List Mark)
    → t.total_latency ≤ 2 ^ 64 - 1
    → t.samples < 2 ^ 64
    → let ds = deltas t.started t.start_time ms in
      let t' = marked t ms in
      (t'.max_latency ≡ max t.max_latency (largest ds))
      × (t'.total_latency ≡ min (2 ^ 64 - 1) (t.total_latency + sum ds))
      × (t'.samples ≡ (t.samples + length ds) % 2 ^ 64)
unfolding marked deltas mark_start mark_end
marked_from t [] h k = ground arith
marked_from t (starts now ∷ ms) h k = marked_from (mark_start t now) ms h k
marked_from t (ends now ∷ ms) h k =
    ground (arith, marked_from t ms h k, marked_from (mark_end t now) ms)

-- After any marks on a new tracker the maximum is the largest of the completed measurements, the
-- total is their sum, or the largest 64-bit word if the sum exceeds it, and the samples are their
-- number modulo 2^64.
pub marked-deltas :
    (ms : List Mark)
    → let ds = deltas false 0 ms in
      let t = marked new ms in
      (t.max_latency ≡ largest ds)
      × (t.total_latency ≡ min (2 ^ 64 - 1) (sum ds))
      × (t.samples ≡ length ds % 2 ^ 64)
marked-deltas ms = ground (arith, marked_from new ms (omega arith) (omega arith))
