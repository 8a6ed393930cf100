-- ===== src/Crypto/Entropy/Pool.antt =====
-- shawncore-pq-crypto/src/entropy_pool.rs: the pool, and the queue and gate that all pools of the
-- process share. The lock around the pool's bytes is held for single reads and writes of them; the
-- gates are held for whole operations, and another thread that holds one shows as a gate that is
-- closed when the operation starts. Wiped locals and cache flushes leave no trace in the state.
use shawn_core_libraries.Base.{
  ℕ, zero, suc, ◌+◌, ◌-◌, ◌%◌, ◌^◌, Bool, true, false, [], ◌∷◌, ◌++◌, length, take, drop, replicate,
  min, ok, err, if◌then◌else◌, ltb, ◌==◌, Bytes,
}
use shawn_core_libraries.Crypto.Error.{Outcome, entropy_starvation, entropy_busy}
use shawn_core_libraries.Crypto.Primitives.{Primitives}
use shawn_core_libraries.Crypto.Entropy.Queue.{EntropyQueue, pop, zero_chunk}

abbrev pub max_mix_chunks_per_call : ℕ
max_mix_chunks_per_call = 8

pub record EntropyPool : Type 0 where
  pub pool : Bytes  -- [u8; 48]
  pub reseed_count : ℕ  -- u64
  pub mixing : Bool

abbrev pub new : EntropyPool
new = record { pool = replicate 48 0; reseed_count = 0; mixing = false }

-- `GLOBAL_ENTROPY_QUEUE` and `GLOBAL_ENTROPY_QUEUE_CONSUMER_GATE`.
pub record Shared : Type 0 where
  pub global_queue : EntropyQueue
  pub consumer_gate : Bool

-- The loop of `mix_entropy_under_gate` with `left` more chunks to take: what the hasher was given,
-- whether any chunk was taken, and the queue.
unfoldable pub take_chunks :
    (left : ℕ) → EntropyQueue → (hashed : Bytes) (mixed : Bool) → Bytes × Bool × EntropyQueue
take_chunks zero q hashed mixed = (hashed, mixed, q)
take_chunks (suc left) q hashed mixed =
    let (popped, chunk, q') = pop q zero_chunk in
    elim popped [ true ↦ take_chunks left q' (hashed ++ chunk) true | false ↦ (hashed, mixed, q') ]

-- `out[offset..offset + bytes.len()].copy_from_slice(bytes)`.
abbrev pub copy_at : (out : Bytes) (offset : ℕ) (bytes : Bytes) → Bytes
copy_at out offset bytes = take offset out ++ bytes ++ drop (offset + length bytes) out

module _ (p : Primitives) where
  -- The queue's gate is closed while the chunks are taken, and open afterwards.
  unfoldable pub mix_entropy_under_gate : EntropyPool → Shared → EntropyPool × Shared
  unfolding take_chunks
  mix_entropy_under_gate e shared =
      if shared.consumer_gate
      then (e, shared)
      else let (hashed, mixed, q) =
          take_chunks max_mix_chunks_per_call shared.global_queue [] false in
        (
          if mixed
              then record e {
                pool = p.sha384 (e.pool ++ p.sha384 hashed);
                reseed_count = (e.reseed_count + 1) % 2 ^ 64;
              }
              else e,
          record shared { global_queue = q; consumer_gate = false },
        )

  unfoldable pub mix_entropy : EntropyPool → Shared → EntropyPool × Shared
  mix_entropy e shared =
      if e.mixing
      then (e, shared)
      else let (e', shared') = mix_entropy_under_gate (record e { mixing = true }) shared in
        (record e' { mixing = false }, shared')

  -- The loop of `extract_entropy`: the buffer and the pool's bytes.
  unfoldable pub extract_loop : (fuel offset : ℕ) (out pool : Bytes) → Bytes × Bytes
  extract_loop zero offset out pool = (out, pool)
  extract_loop (suc fuel) offset out pool =
      let out_result = p.sha384 (0x00 ∷ pool) in
      let state_result = p.sha384 (0x01 ∷ pool) in
      let copy_len = min 48 (length out - offset) in
      let rest =
        extract_loop fuel (offset + copy_len) (copy_at out offset (take copy_len out_result))
          state_result in
      if ltb offset (length out) then rest else (out, pool)

  -- The result, the buffer, the pool and what all pools share. A turn of the loop writes at least
  -- one byte, so as many turns as the buffer has bytes are enough.
  unfoldable pub extract_entropy :
      EntropyPool → Shared → (out : Bytes) → Outcome (Unit {0}) × Bytes × EntropyPool × Shared
  unfolding mix_entropy_under_gate extract_loop
  extract_entropy e shared out =
      if e.mixing
      then (err entropy_busy, out, e, shared)
      else let (e', shared') = mix_entropy_under_gate (record e { mixing = true }) shared in
        if e'.reseed_count == 0
        then (err entropy_starvation, out, record e' { mixing = false }, shared')
        else let (out', pool') = extract_loop (length out) 0 out e'.pool in
          (ok tt, out', record e' { pool = pool'; mixing = false }, shared')
