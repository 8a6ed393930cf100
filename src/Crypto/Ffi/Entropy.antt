-- ===== src/Crypto/Ffi/Entropy.antt =====
-- The entropy calls of the C interface (ffi.rs): shawncore_crypto_entropy_push and
-- shawncore_crypto_entropy_mix, on the global queue and pool.
use shawn_core_libraries.Base.{
  ℕ, ◌≡◌, refl, ap, ◌∙◌, Bool, not, ◌||◌, [], ◌∷◌, ◌++◌, length, if◌then◌else◌, leb, Bool-cases,
  inl, inr,
}
use shawn_core_libraries.Base.Encoding.{all_equal}
use shawn_core_libraries.Crypto.Primitives.{Primitives}
use shawn_core_libraries.Crypto.Entropy.Queue.{entropy_queue_size, push}
use shawn_core_libraries.Crypto.Entropy.Fifo.{chunks, IsValid, push-enqueue}
use shawn_core_libraries.Crypto.Entropy.Pool.{EntropyPool, Shared, mix_entropy}
use shawn_core_libraries.Crypto.Ffi.{
  ShawncoreCryptoErr, success, invalid_state, status, Memory, read, is_null,
}

-- `GLOBAL_ENTROPY_POOL` and what it shares with other pools.
pub record Globals : Type 0 where
  pub pool : EntropyPool
  pub shared : Shared

-- A chunk of equal bytes, all 0 or all 0xFF, is refused.
unfoldable pub crypto_entropy_push : Memory → Globals → (chunk : ℕ) → ShawncoreCryptoErr × Globals
crypto_entropy_push memory g chunk =
    if is_null chunk
    then (invalid_state, g)
    else if all_equal 0 (read memory chunk 32) || all_equal 0xFF (read memory chunk 32)
    then (invalid_state, g)
    else let (r, q) = push g.shared.global_queue (read memory chunk 32) in
      (status r, record g { shared = record g.shared { global_queue = q } })

unfoldable pub crypto_entropy_mix : Primitives → Globals → ShawncoreCryptoErr × Globals
crypto_entropy_mix p g =
    let (pool, shared) = mix_entropy p g.pool g.shared in
    (success, record g { pool = pool; shared = shared })

-- The pointer is not null, the 32 bytes are not all 0 and not all 0xFF, and fewer than 64 chunks
-- wait.
abbrev pub accepts : Memory → Globals → (chunk : ℕ) → Bool
accepts memory g chunk = not (
    is_null chunk
    || (all_equal 0 (read memory chunk 32)
        || (all_equal 0xFF (read memory chunk 32)
            || leb entropy_queue_size (length (chunks g.shared.global_queue)))))

-- With a valid queue: shawncore_crypto_entropy_push answers `Success` and appends the 32 bytes that
-- the pointer names to the chunks that wait, if it accepts them; and otherwise it answers
-- `InvalidState` and the same chunks wait. The queue stays valid and the pool is not touched.
pub crypto_entropy_push-chunks :
    (memory : Memory) (g : Globals) (chunk : ℕ)
    → IsValid g.shared.global_queue
    → let (code, g') = crypto_entropy_push memory g chunk in
      let waiting = chunks g.shared.global_queue in
      (code ≡ (if accepts memory g chunk then success else invalid_state))
      × (chunks g'.shared.global_queue
          ≡ (if accepts memory g chunk then waiting ++ read memory chunk 32 ∷ [] else waiting))
      × IsValid g'.shared.global_queue
      × (g'.pool ≡ g.pool)
unfolding crypto_entropy_push
crypto_entropy_push-chunks memory g chunk v =
    let (result, left, v') = push-enqueue g.shared.global_queue (read memory chunk 32) v in
    elim (Bool-cases (is_null chunk)) [
      | inl null ↦ rw null (refl, refl, v, refl)
      | inr given ↦ elim (Bool-cases (all_equal 0 (read memory chunk 32))) [
        | inl zeros ↦ rw (given, zeros) (refl, refl, v, refl)
        | inr some_bit ↦ elim (Bool-cases (all_equal 0xFF (read memory chunk 32))) [
          | inl ones ↦ rw (given, some_bit, ones) (refl, refl, v, refl)
          | inr varied ↦
              elim (Bool-cases (leb entropy_queue_size (length (chunks g.shared.global_queue)))) [
                | inl full ↦
                    rw (given, some_bit, varied, full)
                      (ap status result ∙ rw full refl, left ∙ rw full refl, v', refl)
                | inr room ↦
                    rw (given, some_bit, varied, room)
                      (ap status result ∙ rw room refl, left ∙ rw room refl, v', refl)
              ]
        ]
      ]
    ]
