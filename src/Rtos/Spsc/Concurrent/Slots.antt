-- ===== src/Rtos/Spsc/Concurrent/Slots.antt =====
-- Which slots the two threads of spsc_queue.rs work on.
use shawn_core_libraries.Base.{ℕ, ◌+◌, ◌%◌, ◌^◌, ◌≤◌, ◌<◌, ◌≡◌, ◌≢◌, ap, sym, ◌∙◌, arith}
use shawn_core_libraries.Rtos.Ring.{wrapping_sub}
use shawn_core_libraries.Rtos.Ring.Indices.{IsCapacity, wrapped_slot, same_slot}

-- The running index behind the newest item, unwrapped, names the slot of `head`.
pub slot_of_head :
    {capacity : ℕ} (head tail : ℕ)
    → IsCapacity capacity
    → head < 2 ^ 64
    → tail < 2 ^ 64
    → head % capacity ≡ (tail + wrapping_sub head tail) % capacity
slot_of_head {capacity} head tail c h t =
    ap (λ i. i % capacity) {x = head} {y = (tail + wrapping_sub head tail) % 2 ^ 64}
      (omega (arith, h, t))
    ∙ wrapped_slot (tail + wrapping_sub head tail) c

-- With room left, the slot of `head` is none of those in use.
pub head_apart :
    {capacity : ℕ} (head tail i : ℕ)
    → IsCapacity capacity
    → head < 2 ^ 64
    → tail < 2 ^ 64
    → wrapping_sub head tail < capacity
    → i < wrapping_sub head tail
    → head % capacity ≢ (tail + i) % capacity
head_apart {capacity} head tail i c h t room below e = absurd (
    omega (
      arith,
      same_slot capacity (tail + i) (tail + wrapping_sub head tail) (omega (arith, below))
          (omega (arith, below, room)) (sym e ∙ slot_of_head head tail c h t),
      below,
    ))

-- The slot of `tail` holds the oldest item only.
pub tail_apart :
    {capacity : ℕ} (tail i n : ℕ)
    → n ≤ capacity
    → i + 1 < n
    → tail % capacity ≢ (tail + 1 + i) % capacity
tail_apart {capacity} tail i n fits below e = absurd (
    omega
      (arith, same_slot capacity tail (tail + 1 + i) (omega arith) (omega (arith, fits, below)) e))
