-- ===== src/Rtos/Examples/Ring.antt =====
-- A ring of two slots, over storage that held something else.
use shawn_core_libraries.Base.{ℕ, ◌≡◌, refl, List, [], ◌∷◌, replicate, arith}
use shawn_core_libraries.Rtos.Ring.{CacheAlignedSlot, RingBuffer, new, init}
use shawn_core_libraries.Rtos.Ring.Indices.{IsCapacity}
use shawn_core_libraries.Rtos.Ring.Queue.{
  Call, pushes, pops, peeks, answers, queue_answers, answers-queue_answers,
}
use shawn_core_libraries.Rtos.Spsc
use shawn_core_libraries.Rtos.Spsc.{SpscQueue}
use shawn_core_libraries.Rtos.Spsc.Queue.{
  SpscCall, spsc_push, spsc_pop, spsc_answers, ring_calls, spsc_answers-queue_answers,
}

abbrev pub storage : List (CacheAlignedSlot ℕ)
storage = replicate 2 (record { data_cell = 9; sequence_counter = 7 })

pub two-IsCapacity : IsCapacity 2
two-IsCapacity = record { exponent = 1; small = omega arith; power = refl }

abbrev ring : RingBuffer ℕ
ring = (init 2 0 new 8192 64 64 128 storage).1

abbrev calls : List (Call ℕ)
calls = pushes 1 ∷ pushes 2 ∷ pushes 3 ∷ peeks ∷ pops ∷ pushes 4 ∷ pops ∷ pops ∷ pops ∷ []

answers-queue_answers_example : answers 2 0 ring calls ≡ queue_answers 2 0 [] calls
unfolding init
answers-queue_answers_example =
    answers-queue_answers 2 0 8192 64 64 128 storage calls two-IsCapacity (omega arith) refl

abbrev pub queue : SpscQueue ℕ
queue = (Spsc.init 2 0 Spsc.new 8192 64 64 128 storage).1

abbrev spsc_calls : List (SpscCall ℕ)
spsc_calls = spsc_push 1 ∷ spsc_push 2 ∷ spsc_push 3 ∷ spsc_pop ∷ spsc_push 4 ∷ spsc_pop ∷ []

spsc_answers-queue_answers_example :
    (spsc_answers 2 0 queue spsc_calls ≡ answers 2 0 ring (ring_calls 2 0 spsc_calls))
    × (spsc_answers 2 0 queue spsc_calls ≡ queue_answers 2 0 [] (ring_calls 2 0 spsc_calls))
unfolding Spsc.init
spsc_answers-queue_answers_example =
    spsc_answers-queue_answers 2 0 8192 64 64 128 storage spsc_calls two-IsCapacity (omega arith)
      refl
