-- ===== src/Crypto/Examples/Entropy.antt =====
-- The entropy queue and pool with the primitives of Toy.
use shawn_core_libraries.Base.{◌≡◌, refl, false, ◌==◌, [], ◌∷◌, ◌++◌, replicate, if◌then◌else◌}
use shawn_core_libraries.Crypto.Toy.{toy, toy-HasDigestSize}
use shawn_core_libraries.Crypto.Entropy.Queue.{EntropyQueue, push}
use shawn_core_libraries.Crypto.Entropy.Queue
use shawn_core_libraries.Crypto.Entropy.Fifo.{chunks, IsValid, new-IsValid, push-enqueue}
use shawn_core_libraries.Crypto.Entropy.Pool.{Shared, new, mix_entropy, extract_entropy}
use shawn_core_libraries.Crypto.Entropy.Mixing.{
  fed, next_chunks, Drained, extracted, mix_entropy-fed, extract_entropy-keystream,
}
use shawn_core_libraries.Crypto.Entropy.Drain.{mixes, mixes_drain}
use shawn_core_libraries.Crypto.Ffi.{read, success, invalid_state, Memory}
use shawn_core_libraries.Crypto.Ffi.Entropy.{
  Globals, crypto_entropy_push, accepts, crypto_entropy_push-chunks,
}

-- A queue in which one chunk waits.
abbrev queue : EntropyQueue
queue = (push Queue.new (replicate 32 5)).1

queue-IsValid : IsValid queue
queue-IsValid = (push-enqueue Queue.new (replicate 32 5) new-IsValid.0).2

abbrev shared : Shared
shared = record { global_queue = queue; consumer_gate = false }

mix_entropy-fed_example :
    ((mix_entropy toy new shared).0 ≡ fed toy new (next_chunks toy shared))
    × Drained toy shared (mix_entropy toy new shared).1
mix_entropy-fed_example = mix_entropy-fed toy new shared queue-IsValid refl refl

extract_entropy-keystream_example :
    let (result, out, pool, shared') = extract_entropy toy new shared (replicate 50 0) in
    let (expected, written, left) =
      extracted toy (fed toy new (next_chunks toy shared)) (replicate 50 0) in
    (result ≡ expected) × (out ≡ written) × (pool ≡ left) × Drained toy shared shared'
extract_entropy-keystream_example =
    extract_entropy-keystream toy new shared (replicate 50 0) toy-HasDigestSize queue-IsValid refl
      refl

mixes_drain_example : chunks (mixes toy 8 new shared).1.global_queue ≡ []
mixes_drain_example = mixes_drain toy new shared queue-IsValid refl refl

abbrev globals : Globals
globals = record { pool = new; shared = shared }

-- Memory that holds 5 everywhere but at one address.
abbrev memory : Memory
memory address = if address == 70 then 6 else 5

crypto_entropy_push-chunks_example :
    let (code, g) = crypto_entropy_push memory globals 64 in
    (code ≡ (if accepts memory globals 64 then success else invalid_state))
    × (chunks g.shared.global_queue ≡ (
        if accepts memory globals 64 then chunks queue ++ read memory 64 32 ∷ [] else chunks queue))
    × IsValid g.shared.global_queue
    × (g.pool ≡ new)
crypto_entropy_push-chunks_example = crypto_entropy_push-chunks memory globals 64 queue-IsValid
