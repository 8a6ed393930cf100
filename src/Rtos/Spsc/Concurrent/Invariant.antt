-- ===== src/Rtos/Spsc/Concurrent/Invariant.antt =====
-- What holds of the queue of spsc_queue.rs between any two steps of its threads.
use shawn_core_libraries.Base.{
  ℕ, ◌+◌, ◌-◌, ◌%◌, ◌^◌, ◌≤◌, ◌<◌, ◌≡◌, refl, sym, ◌∙◌, Bool, true, false, List, ◌∷◌, ◌++◌, length,
  bit_and,
}
use shawn_core_libraries.Rtos.Ring.{CacheAlignedSlot, wrapping_sub}
use shawn_core_libraries.Rtos.Ring.Contents.{items}
use shawn_core_libraries.Rtos.Spsc.{SpscQueue, slot_at}
use shawn_core_libraries.Rtos.Spsc.Concurrent.{
  Producer, resting, admitted, marked, stored, published, Consumer, idle, entered, sequenced, taken,
  validated, cleared, Machine, head_slot, tail_slot,
}

module _ {ℓ} {T : Type ℓ} where
  -- Past the test of `push`; past that of `pop`.
  abbrev pub busy : Producer T → Bool
  busy resting = false
  busy (admitted item) = true
  busy (marked sequence item) = true
  busy (stored sequence item) = true
  busy (published item) = true

  abbrev pub active : Consumer T → Bool
  active idle = false
  active entered = true
  active (sequenced first_sequence) = true
  active (taken first_sequence item) = true
  active (validated item) = true
  active (cleared item) = true

  -- What the thread takes the slot of `head` to hold, or that slot's own item; the low bit of the
  -- counter of that slot once the even store is done.
  abbrev pub wrote : Producer T → T → T
  wrote resting own = own
  wrote (admitted item) own = own
  wrote (marked sequence item) own = own
  wrote (stored sequence item) own = item
  wrote (published item) own = item

  abbrev pub settled : Producer T → ℕ → ℕ
  settled resting low = 0
  settled (admitted item) low = 0
  settled (marked sequence item) low = 0
  settled (stored sequence item) low = 0
  settled (published item) low = low

  -- The counter and the item that the consumer has loaded, or those of the slot of `tail`.
  abbrev pub loaded : Consumer T → ℕ → ℕ
  loaded idle own = own
  loaded entered own = own
  loaded (sequenced first_sequence) own = first_sequence
  loaded (taken first_sequence item) own = first_sequence
  loaded (validated item) own = own
  loaded (cleared item) own = own

  abbrev pub held : Consumer T → T → T
  held idle own = own
  held entered own = own
  held (sequenced first_sequence) own = own
  held (taken first_sequence item) own = item
  held (validated item) own = item
  held (cleared item) own = own

  pub wrote_keep :
      (p : Producer T) {a b : T} → wrote p a ≡ a → (busy p ≡ true → b ≡ a) → wrote p b ≡ b
  wrote_keep resting h e = refl
  wrote_keep (admitted item) h e = refl
  wrote_keep (marked sequence item) h e = refl
  wrote_keep (stored sequence item) h e = h ∙ sym (e refl)
  wrote_keep (published item) h e = h ∙ sym (e refl)

  pub settled_keep :
      (p : Producer T) {a b : ℕ} → settled p a ≡ 0 → (busy p ≡ true → b ≡ a) → settled p b ≡ 0
  settled_keep resting h e = refl
  settled_keep (admitted item) h e = refl
  settled_keep (marked sequence item) h e = refl
  settled_keep (stored sequence item) h e = refl
  settled_keep (published item) h e = e refl ∙ h

  pub loaded_keep :
      (c : Consumer T) {a b : ℕ} → loaded c a ≡ a → (active c ≡ true → b ≡ a) → loaded c b ≡ b
  loaded_keep idle h e = refl
  loaded_keep entered h e = refl
  loaded_keep (sequenced first_sequence) h e = h ∙ sym (e refl)
  loaded_keep (taken first_sequence item) h e = h ∙ sym (e refl)
  loaded_keep (validated item) h e = refl
  loaded_keep (cleared item) h e = refl

  pub held_keep :
      (c : Consumer T) {a b : T} → held c a ≡ a → (active c ≡ true → b ≡ a) → held c b ≡ b
  held_keep idle h e = refl
  held_keep entered h e = refl
  held_keep (sequenced first_sequence) h e = refl
  held_keep (taken first_sequence item) h e = h ∙ sym (e refl)
  held_keep (validated item) h e = h ∙ sym (e refl)
  held_keep (cleared item) h e = refl

module _ {ℓ} {T : Type ℓ} (capacity : ℕ) (default : T) where
  abbrev pub count : SpscQueue T → ℕ
  count q = wrapping_sub q.head q.tail

  -- What `pop` has still to return, oldest first: an item already cleared from its slot, and those
  -- in the slots.
  abbrev pub waiting : List (CacheAlignedSlot T) → (tail n : ℕ) → Consumer T → List T
  waiting slots tail n idle = items capacity default slots tail n
  waiting slots tail n entered = items capacity default slots tail n
  waiting slots tail n (sequenced first_sequence) = items capacity default slots tail n
  waiting slots tail n (taken first_sequence item) = items capacity default slots tail n
  waiting slots tail n (validated item) = items capacity default slots tail n
  waiting slots tail n (cleared item) = item ∷ items capacity default slots (tail + 1) (n - 1)

  pub record Inv (m : Machine T) : Type ℓ where
    pub storage : capacity ≤ length m.queue.buffer
    pub words : (m.queue.head < 2 ^ 64) × (m.queue.tail < 2 ^ 64)
    pub used : count m.queue ≤ capacity
    pub room : busy m.producer ≡ true → count m.queue < capacity
    pub present : active m.consumer ≡ true → 0 < count m.queue
    pub even :
        (i : ℕ)
        → i < count m.queue
        → bit_and
            (slot_at capacity default m.queue ((m.queue.tail + i) % capacity)).sequence_counter
            1
          ≡ 0
    pub complete :
        settled m.producer (bit_and (head_slot capacity default m.queue).sequence_counter 1) ≡ 0
    pub in_slot :
        wrote m.producer (head_slot capacity default m.queue).data_cell
        ≡ (head_slot capacity default m.queue).data_cell
    pub sequence :
        loaded m.consumer (tail_slot capacity default m.queue).sequence_counter
        ≡ (tail_slot capacity default m.queue).sequence_counter
    pub item :
        held m.consumer (tail_slot capacity default m.queue).data_cell
        ≡ (tail_slot capacity default m.queue).data_cell
    pub history :
        m.pushed ≡ m.popped ++ waiting m.queue.buffer m.queue.tail (count m.queue) m.consumer
