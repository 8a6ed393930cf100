-- ===== src/Crypto/Entropy/Queue.antt =====
-- shawncore-pq-crypto/src/entropy_queue.rs: the queue of entropy chunks between the host and the
-- pool, each call of which runs to its end before the next one.
use shawn_core_libraries.Base.{
  ℕ, ◌%◌, Bool, true, false, List, get_or, set, replicate, ok, err, if◌then◌else◌, leb, ◌==◌, Bytes,
}
use shawn_core_libraries.Crypto.Error.{Outcome, invalid_state}
use shawn_core_libraries.Rtos.Ring.{wrapping_add, wrapping_sub}

abbrev pub entropy_chunk_size : ℕ
entropy_chunk_size = 32

abbrev pub entropy_queue_size : ℕ
entropy_queue_size = 64

abbrev pub zero_chunk : Bytes
zero_chunk = replicate entropy_chunk_size 0

-- A slot is its chunk.
pub record EntropyQueue : Type 0 where
  pub buffer : List Bytes
  pub head : ℕ  -- usize
  pub tail : ℕ  -- usize

abbrev pub new : EntropyQueue
new = record { buffer = replicate entropy_queue_size zero_chunk; head = 0; tail = 0 }

unfoldable pub push : EntropyQueue → (item : Bytes) → Outcome (Unit {0}) × EntropyQueue
push q item =
    if leb entropy_queue_size (wrapping_sub q.head q.tail) then (err invalid_state, q) else (
      ok tt,
      record q {
        buffer = set q.buffer (q.head % entropy_queue_size) item;
        head = wrapping_add q.head 1;
      },
    )

-- Whether there was a chunk, and the output buffer. The slot is zeroed.
unfoldable pub pop : EntropyQueue → (out : Bytes) → Bool × Bytes × EntropyQueue
pop q out = if q.head == q.tail then (false, out, q) else (
  true,
  get_or q.buffer (q.tail % entropy_queue_size) zero_chunk,
  record q {
    buffer = set q.buffer (q.tail % entropy_queue_size) zero_chunk;
    tail = wrapping_add q.tail 1;
  },
)
