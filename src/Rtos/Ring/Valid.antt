-- ===== src/Rtos/Ring/Valid.antt =====
-- The bounded queue that a ring stands for, and when a ring is well formed.
use shawn_core_libraries.Base.{
  ℕ, ◌^◌, ◌≤◌, ◌<◌, ◌≡◌, true, List, [], ◌∷◌, ◌++◌, length, Option, none, some, Result, ok, err,
  if◌then◌else◌, leb, bit_and,
}
use shawn_core_libraries.Rtos.Error.{IpcError, queue_full}
use shawn_core_libraries.Rtos.Ring.{RingBuffer, wrapping_sub, slot_at}

-- A queue of at most `capacity` items: what the ring promises.
abbrev pub enqueue {ℓ} : {T : Type ℓ} → ℕ → List T → T → Result IpcError (Unit {0}) × List T
enqueue capacity q x = if leb capacity (length q) then (err queue_full, q) else (ok tt, q ++ x ∷ [])

abbrev pub dequeue {ℓ} : {T : Type ℓ} → List T → Option T × List T
dequeue [] = (none, [])
dequeue (x ∷ xs) = (some x, xs)

module _ {ℓ} {T : Type ℓ} (capacity : ℕ) (default : T) where
  -- An initialized ring: its storage has all the slots, no more of them are in use than there are,
  -- and none is being written.
  pub record IsValid (r : RingBuffer T) : Type ℓ where
    pub ready : r.is_initialized ≡ true
    pub storage : capacity ≤ length r.buffer
    pub words : (r.head < 2 ^ 64) × (r.tail < 2 ^ 64)
    pub used : wrapping_sub r.head r.tail ≤ capacity
    pub stable :
        (i : ℕ) → i < capacity → bit_and (slot_at capacity default r i).sequence_counter 1 ≡ 0

  -- How many items the ring holds.
  abbrev pub count : RingBuffer T → ℕ
  count r = wrapping_sub r.head r.tail
