-- ===== src/Crypto/Entropy/Drain.antt =====
-- Calls of `mix_entropy` of entropy_pool.rs, one after the other, and the backlog of the queue.
use shawn_core_libraries.Base.{
  ℕ, zero, suc, ◌+◌, ◌*◌, ◌≡◌, refl, ap, ◌∙◌, false, List, [], ◌∷◌, drop, Bytes, arith,
}
use shawn_core_libraries.Base.Encoding.{drop-drop, drop-all}
use shawn_core_libraries.Crypto.Primitives.{Primitives}
use shawn_core_libraries.Crypto.Entropy.Fifo.{chunks, IsValid, length-chunks}
use shawn_core_libraries.Crypto.Entropy.Pool.{EntropyPool, Shared, mix_entropy}
use shawn_core_libraries.Crypto.Entropy.Mixing.{fed, next_chunks, mix_entropy-fed}

module _ (p : Primitives) where
  -- Calls of `mix_entropy`, one after the other.
  unfoldable pub mixes : (n : ℕ) → EntropyPool → Shared → EntropyPool × Shared
  mixes zero e shared = (e, shared)
  mixes (suc n) e shared = let (e', shared') = mix_entropy p e shared in mixes n e' shared'

  fed_idle : (e : EntropyPool) (cs : List Bytes) → (fed p e cs).mixing ≡ e.mixing
  fed_idle e [] = refl
  fed_idle e (c ∷ cs) = refl

  mixes_rest :
      (n : ℕ) (e : EntropyPool) (shared : Shared)
      → IsValid shared.global_queue
      → e.mixing ≡ false
      → shared.consumer_gate ≡ false
      → chunks (mixes n e shared).1.global_queue ≡ drop (8 * n) (chunks shared.global_queue)
  unfolding mixes
  mixes_rest zero e shared v idle gate = refl
  mixes_rest (suc n) e shared v idle gate =
      let (pool, drained) = mix_entropy-fed p e shared v idle gate in
      mixes_rest n (mix_entropy p e shared).0 (mix_entropy p e shared).1 drained.valid
        (ap {A = EntropyPool} (λ x. x.mixing) pool ∙ fed_idle e (next_chunks p shared) ∙ idle)
        drained.gate
      ∙ ap (drop (8 * n)) drained.rest
      ∙ drop-drop 8 (8 * n) (chunks shared.global_queue)
      ∙ ap (λ k. drop k (chunks shared.global_queue)) {x = 8 + 8 * n} {y = 8 * suc n} (omega arith)

  -- With a valid queue and both gates open: eight calls of `mix_entropy` empty the queue, whatever
  -- it holds.
  pub mixes_drain :
      (e : EntropyPool) (shared : Shared)
      → IsValid shared.global_queue
      → e.mixing ≡ false
      → shared.consumer_gate ≡ false
      → chunks (mixes 8 e shared).1.global_queue ≡ []
  mixes_drain e shared v idle gate =
      mixes_rest 8 e shared v idle gate
      ∙ drop-all 64 (chunks shared.global_queue)
          (omega (arith, length-chunks shared.global_queue, v.used))
