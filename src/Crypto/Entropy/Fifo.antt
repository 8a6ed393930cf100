-- ===== src/Crypto/Entropy/Fifo.antt =====
-- The entropy queue of entropy_queue.rs against the bounded queue of chunks that it stands for.
use shawn_core_libraries.Base.{
  ℕ, suc, zero, ◌+◌, ◌%◌, ◌^◌, ◌≤◌, ◌<◌, ◌≡◌, refl, sym, ap, ap₂, ◌∙◌, Bool, true, false, List, [],
  ◌∷◌, ◌++◌, length, get_or, set, length-set, ok, err, if◌then◌else◌, leb, ◌==◌, Bytes, Bool-cases,
  inl, inr, arith,
}
use shawn_core_libraries.Crypto.Error.{Outcome, invalid_state}
use shawn_core_libraries.Crypto.Entropy.Queue.{
  EntropyQueue, entropy_queue_size, zero_chunk, new, push, pop,
}
use shawn_core_libraries.Rtos.Ring.{CacheAlignedSlot, RingBuffer, wrapping_sub}
use shawn_core_libraries.Rtos.Ring
use shawn_core_libraries.Rtos.Ring.Indices.{IsCapacity}
use shawn_core_libraries.Rtos.Ring.Contents.{item_at, items, length-items}
use shawn_core_libraries.Rtos.Ring.Contents
use shawn_core_libraries.Rtos.Ring.Valid
use shawn_core_libraries.Rtos.Ring.Push.{contents-pushed, pushed-IsValid}
use shawn_core_libraries.Rtos.Ring.Pop.{contents-popped, popped-IsValid}

-- The chunks as slots of a ring that nobody writes.
abbrev pub as_slots : List Bytes → List (CacheAlignedSlot Bytes)
as_slots [] = []
as_slots (chunk ∷ chunks) = record { data_cell = chunk; sequence_counter = 0 } ∷ as_slots chunks

abbrev pub as_ring : EntropyQueue → RingBuffer Bytes
as_ring q = record {
  buffer = as_slots q.buffer;
  head = q.head;
  tail = q.tail;
  is_initialized = true;
  is_initializing = false;
}

-- The chunks that wait, the oldest first.
abbrev pub chunks : EntropyQueue → List Bytes
chunks q = Contents.contents entropy_queue_size zero_chunk (as_ring q)

pub record IsValid (q : EntropyQueue) : Type 0 where
  pub storage : length q.buffer ≡ entropy_queue_size
  pub words : (q.head < 2 ^ 64) × (q.tail < 2 ^ 64)
  pub used : wrapping_sub q.head q.tail ≤ entropy_queue_size

size-IsCapacity : IsCapacity entropy_queue_size
size-IsCapacity = record { exponent = 6; small = omega arith; power = refl }

length-as_slots : (cs : List Bytes) → length (as_slots cs) ≡ length cs
length-as_slots [] = refl
length-as_slots (c ∷ cs) = ap suc (length-as_slots cs)

-- What the slots hold.
abbrev data_of : List (CacheAlignedSlot Bytes) → List Bytes
data_of [] = []
data_of (slot ∷ slots) = slot.data_cell ∷ data_of slots

data_of-as_slots : (cs : List Bytes) → data_of (as_slots cs) ≡ cs
data_of-as_slots [] = refl
data_of-as_slots (c ∷ cs) = ap (λ l. c ∷ l) (data_of-as_slots cs)

data_of-set :
    (slots : List (CacheAlignedSlot Bytes)) (i : ℕ) (slot : CacheAlignedSlot Bytes)
    → data_of (set slots i slot) ≡ set (data_of slots) i slot.data_cell
data_of-set [] i slot = refl
data_of-set (s ∷ slots) zero slot = refl
data_of-set (s ∷ slots) (suc i) slot = ap (λ l. s.data_cell ∷ l) (data_of-set slots i slot)

data_of-get_or :
    (slots : List (CacheAlignedSlot Bytes)) (i : ℕ) (slot : CacheAlignedSlot Bytes)
    → (get_or slots i slot).data_cell ≡ get_or (data_of slots) i slot.data_cell
data_of-get_or [] i slot = refl
data_of-get_or (s ∷ slots) zero slot = refl
data_of-get_or (s ∷ slots) (suc i) slot = data_of-get_or slots i slot

-- The items depend on what the slots hold only.
items-data_of :
    (slots slots' : List (CacheAlignedSlot Bytes)) (from n : ℕ)
    → data_of slots ≡ data_of slots'
    → items entropy_queue_size zero_chunk slots from n
      ≡ items entropy_queue_size zero_chunk slots' from n
items-data_of slots slots' from zero e = refl
items-data_of slots slots' from (suc n) e =
    ap₂ (λ x xs. x ∷ xs)
      (data_of-get_or slots (from % entropy_queue_size) _
        ∙ ap (λ l. get_or l (from % entropy_queue_size) zero_chunk) e
        ∙ sym (data_of-get_or slots' (from % entropy_queue_size) _))
      (items-data_of slots slots' (from + 1) n e)

even_counter :
    (cs : List Bytes) (i : ℕ)
    → (get_or
        (as_slots cs)
        i
        (record { data_cell = zero_chunk; sequence_counter = 0 })).sequence_counter
      ≡ 0
even_counter [] i = refl
even_counter (c ∷ cs) zero = refl
even_counter (c ∷ cs) (suc i) = even_counter cs i

IsValid-as_ring :
    (q : EntropyQueue) → IsValid q → Valid.IsValid entropy_queue_size zero_chunk (as_ring q)
IsValid-as_ring q v = record {
  ready = refl;
  storage = omega (arith, length-as_slots q.buffer, v.storage);
  words = v.words;
  used = v.used;
  stable = λ i below. ground (arith, even_counter q.buffer i);
}

pub new-IsValid : IsValid new × (chunks new ≡ [])
new-IsValid =
    (record { storage = refl; words = (omega arith, omega arith); used = omega arith }, refl)

-- A queue of at most 64 chunks: what the entropy queue promises.
abbrev pub enqueue : List Bytes → (item : Bytes) → Outcome (Unit {0}) × List Bytes
enqueue cs item =
    if leb entropy_queue_size (length cs) then (err invalid_state, cs) else (ok tt, cs ++ item ∷ [])

abbrev pub dequeue : List Bytes → (out : Bytes) → Bool × Bytes × List Bytes
dequeue [] out = (false, out, [])
dequeue (c ∷ cs) out = (true, c, cs)

pub length-chunks : (q : EntropyQueue) → length (chunks q) ≡ wrapping_sub q.head q.tail
length-chunks q =
    length-items entropy_queue_size zero_chunk (as_slots q.buffer) q.tail
      (wrapping_sub q.head q.tail)

-- Writing a chunk is writing a slot that holds it.
items-written :
    (cs : List Bytes) (from n i : ℕ) (slot : CacheAlignedSlot Bytes)
    → items entropy_queue_size zero_chunk (as_slots (set cs i slot.data_cell)) from n
      ≡ items entropy_queue_size zero_chunk (set (as_slots cs) i slot) from n
items-written cs from n i slot =
    items-data_of (as_slots (set cs i slot.data_cell)) (set (as_slots cs) i slot) from n (
      data_of-as_slots (set cs i slot.data_cell)
      ∙ ap (λ l. set l i slot.data_cell) (sym (data_of-as_slots cs))
      ∙ sym (data_of-set (as_slots cs) i slot))

room_left :
    (q : EntropyQueue) (item : Bytes)
    → IsValid q
    → leb entropy_queue_size (wrapping_sub q.head q.tail) ≡ false
    → ((push q item).0 ≡ ok tt)
      × (chunks (push q item).1 ≡ chunks q ++ item ∷ [])
      × IsValid (push q item).1
unfolding push Ring.publish
room_left q item v room =
    let r = IsValid-as_ring q v in
    let w = pushed-IsValid entropy_queue_size zero_chunk (as_ring q) item size-IsCapacity r room in
    rw room (
      refl,
      items-written q.buffer q.tail _ (q.head % entropy_queue_size) (
            Ring.publish item (
              Ring.slot_at entropy_queue_size zero_chunk (as_ring q) (q.head % entropy_queue_size)))
          ∙ contents-pushed entropy_queue_size zero_chunk (as_ring q) item size-IsCapacity r room,
      record {
        storage = length-set q.buffer (q.head % entropy_queue_size) item ∙ v.storage;
        words = w.words;
        used = w.used;
      },
    )

chunk_left :
    (q : EntropyQueue) (out : Bytes)
    → IsValid q
    → q.head == q.tail ≡ false
    → let (popped, out', q') = pop q out in
      (popped ≡ true) × (chunks q ≡ out' ∷ chunks q') × IsValid q'
unfolding pop
chunk_left q out v some_chunk =
    let r = IsValid-as_ring q v in
    let w = popped-IsValid entropy_queue_size zero_chunk (as_ring q) size-IsCapacity r some_chunk in
    rw some_chunk (
      refl,
      contents-popped entropy_queue_size zero_chunk (as_ring q) size-IsCapacity r some_chunk
          ∙ ap₂ (λ x xs. x ∷ xs)
              (data_of-get_or (as_slots q.buffer) (q.tail % entropy_queue_size) _
                ∙ ap (λ l. get_or l (q.tail % entropy_queue_size) zero_chunk)
                    (data_of-as_slots q.buffer))
              (sym (items-written q.buffer _ _ (q.tail % entropy_queue_size) _)),
      record {
        storage = length-set q.buffer (q.tail % entropy_queue_size) zero_chunk ∙ v.storage;
        words = w.words;
        used = w.used;
      },
    )

-- `push` on a valid queue is `enqueue` on the chunks that wait, and the queue stays valid.
pub push-enqueue :
    (q : EntropyQueue) (item : Bytes)
    → IsValid q
    → let (result, q') = push q item in
      let (expected, cs) = enqueue (chunks q) item in
      (result ≡ expected) × (chunks q' ≡ cs) × IsValid q'
push-enqueue q item v = elim (Bool-cases (leb entropy_queue_size (wrapping_sub q.head q.tail))) [
  | inl full ↦ rw (length-chunks q, full) (unfold push in rw full (refl, refl, v))
  | inr room ↦ rw (length-chunks q, room) (room_left q item v room)
]

-- `pop` on a valid queue is `dequeue` on the chunks that wait, and the queue stays valid.
pub pop-dequeue :
    (q : EntropyQueue) (out : Bytes)
    → IsValid q
    → let (popped, out', q') = pop q out in
      let (expected, out'', cs) = dequeue (chunks q) out in
      (popped ≡ expected) × (out' ≡ out'') × (chunks q' ≡ cs) × IsValid q'
pop-dequeue q out v = elim (Bool-cases (q.head == q.tail)) [
  | inl empty ↦
      let none_left : chunks q ≡ [] =
        ap (items entropy_queue_size zero_chunk (as_slots q.buffer) q.tail)
          {x = wrapping_sub q.head q.tail} {y = 0} (ground (arith, v.words)) in
      rw none_left (unfold pop in rw empty (refl, refl, none_left, v))
  | inr some_chunk ↦
      let (popped, left, valid) = chunk_left q out v some_chunk in
      rw left (popped, refl, refl, valid)
]
