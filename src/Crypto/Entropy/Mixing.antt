-- ===== src/Crypto/Entropy/Mixing.antt =====
-- `mix_entropy` and `extract_entropy` of entropy_pool.rs against the queue of chunks.
use mathlib.Core.List.{append_assoc, append-nil}
use shawn_core_libraries.Base.{
  ℕ, zero, suc, ◌+◌, ◌%◌, ◌^◌, ◌≡◌, refl, sym, ap, ◌∙◌, Bool, true, false, ◌||◌, List, [], ◌∷◌,
  ◌++◌, length, take, drop, ok, err, if◌then◌else◌, ◌==◌, Bytes, Bool-cases, inl, inr, arith,
}
use shawn_core_libraries.Crypto.Error.{Outcome, entropy_starvation, entropy_busy}
use shawn_core_libraries.Crypto.Primitives.{Primitives, HasDigestSize}
use shawn_core_libraries.Crypto.Auth.{concat}
use shawn_core_libraries.Crypto.Entropy.Queue.{EntropyQueue, pop, zero_chunk}
use shawn_core_libraries.Crypto.Entropy.Fifo.{chunks, IsValid, dequeue, pop-dequeue}
use shawn_core_libraries.Crypto.Entropy.Pool.{
  EntropyPool, Shared, max_mix_chunks_per_call, take_chunks, mix_entropy_under_gate, mix_entropy,
  extract_loop, extract_entropy,
}
use shawn_core_libraries.Crypto.Entropy.Keystream.{
  blocks, keystream, state_after, extract_loop-keystream,
}

abbrev any_taken : Bool → List Bytes → Bool
any_taken mixed [] = mixed
any_taken mixed (c ∷ cs) = true

any_taken_already : (cs : List Bytes) → any_taken true cs ≡ true
any_taken_already [] = refl
any_taken_already (c ∷ cs) = refl

-- The loop takes the oldest chunks, in order.
take_chunks-chunks :
    (left : ℕ) (q : EntropyQueue) (cs : List Bytes) (hashed : Bytes) (mixed : Bool)
    → IsValid q
    → chunks q ≡ cs
    → let (h, m, q') = take_chunks left q hashed mixed in
      (h ≡ hashed ++ concat (take left cs))
      × (m ≡ any_taken mixed (take left cs))
      × (chunks q' ≡ drop left cs)
      × IsValid q'
unfolding take_chunks
take_chunks-chunks zero q cs hashed mixed v e = (sym (append-nil hashed), refl, e, v)
take_chunks-chunks (suc left) q [] hashed mixed v e =
    let (popped, _, rest, v') = pop-dequeue q zero_chunk v in
    rw (take_chunks, popped ∙ ap (λ l. (dequeue l zero_chunk).0) e)
      (sym (append-nil hashed), refl, rest ∙ ap (λ l. (dequeue l zero_chunk).2) e, v')
take_chunks-chunks (suc left) q (c ∷ cs) hashed mixed v e =
    let (popped, chunk, rest, v') = pop-dequeue q zero_chunk v in
    let (h, m, r, w) =
      take_chunks-chunks left (pop q zero_chunk).2 cs (hashed ++ (pop q zero_chunk).1) true v'
        (rest ∙ ap (λ l. (dequeue l zero_chunk).2) e) in
    rw (take_chunks, popped ∙ ap (λ l. (dequeue l zero_chunk).0) e)
      (
        h
            ∙ append_assoc hashed (pop q zero_chunk).1 (concat (take left cs))
            ∙ ap (λ x. hashed ++ (x ++ concat (take left cs)))
                (chunk ∙ ap (λ l. (dequeue l zero_chunk).1) e),
        m ∙ any_taken_already (take left cs),
        r,
        w,
      )

module _ (p : Primitives) where
  -- What a pool becomes when it is fed some chunks: the digest of all of them is hashed behind the
  -- pool's bytes, and the count of reseeds goes up; no chunks leave it as it is.
  abbrev pub fed : EntropyPool → List Bytes → EntropyPool
  fed e [] = e
  fed e (c ∷ cs) = record e {
    pool = p.sha384 (e.pool ++ p.sha384 (concat (c ∷ cs)));
    reseed_count = (e.reseed_count + 1) % 2 ^ 64;
  }

  -- The eight oldest chunks, or all if there are fewer.
  abbrev pub next_chunks : Shared → List Bytes
  next_chunks shared = take max_mix_chunks_per_call (chunks shared.global_queue)

  -- The queue after a mixing: the next chunks are gone, the gate is open.
  pub record Drained (shared shared' : Shared) : Type 0 where
    pub rest :
        chunks shared'.global_queue ≡ drop max_mix_chunks_per_call (chunks shared.global_queue)
    pub gate : shared'.consumer_gate ≡ false
    pub valid : IsValid shared'.global_queue

  -- Taking the pool's gate and giving it back.
  idle_again :
      (e : EntropyPool) (cs : List Bytes)
      → e.mixing ≡ false
      → record (fed (record e { mixing = true }) cs) { mixing = false } ≡ fed e cs
  idle_again e [] idle = ap (λ b. record e { mixing = b }) (sym idle)
  idle_again e (c ∷ cs) idle = ap (λ b. record (fed e (c ∷ cs)) { mixing = b }) (sym idle)

  mix_under_gate :
      (e : EntropyPool) (shared : Shared)
      → IsValid shared.global_queue
      → shared.consumer_gate ≡ false
      → ((mix_entropy_under_gate p e shared).0 ≡ fed e (next_chunks shared))
        × Drained shared (mix_entropy_under_gate p e shared).1
  unfolding mix_entropy_under_gate
  mix_under_gate e shared v gate =
      let (h, m, rest, v') =
        take_chunks-chunks max_mix_chunks_per_call shared.global_queue (chunks shared.global_queue)
          [] false v refl in
      rw gate
        (rw (h, m) (fed_as (next_chunks shared)), record { rest = rest; gate = refl; valid = v' })
    where
      fed_as :
          (cs : List Bytes)
          → (if any_taken false cs
              then record e {
                pool = p.sha384 (e.pool ++ p.sha384 ([] ++ concat cs));
                reseed_count = (e.reseed_count + 1) % 2 ^ 64;
              }
              else e)
            ≡ fed e cs
      fed_as [] = refl
      fed_as (c ∷ cs) = refl

  opened :
      (e : EntropyPool) (shared : Shared)
      → e.mixing ≡ false
      → mix_entropy p e shared ≡ (
        record (mix_entropy_under_gate p (record e { mixing = true }) shared).0 { mixing = false },
        (mix_entropy_under_gate p (record e { mixing = true }) shared).1,
      )
  unfolding mix_entropy
  opened e shared idle =
      ap
        (λ b. if b then (e, shared) else (
          record (mix_entropy_under_gate p (record e { mixing = true }) shared).0 {
            mixing = false;
          },
          (mix_entropy_under_gate p (record e { mixing = true }) shared).1,
        ))
        idle

  -- With a valid queue and both gates open: `mix_entropy` feeds the pool the eight oldest chunks, or
  -- all if there are fewer, in the order in which they were pushed, and removes exactly them from
  -- the queue; both gates are open afterwards.
  pub mix_entropy-fed :
      (e : EntropyPool) (shared : Shared)
      → IsValid shared.global_queue
      → e.mixing ≡ false
      → shared.consumer_gate ≡ false
      → ((mix_entropy p e shared).0 ≡ fed e (next_chunks shared))
        × Drained shared (mix_entropy p e shared).1
  unfolding mix_entropy
  mix_entropy-fed e shared v idle gate =
      let (pool, drained) = mix_under_gate (record e { mixing = true }) shared v gate in
      rw (opened e shared idle) (
        ap {A = EntropyPool} (λ x. record x { mixing = false }) pool
            ∙ idle_again e (next_chunks shared) idle,
        drained,
      )

  -- Whichever gate is closed: `mix_entropy` changes nothing.
  pub mix_entropy_blocked :
      (e : EntropyPool) (shared : Shared)
      → e.mixing || shared.consumer_gate ≡ true
      → mix_entropy p e shared ≡ (e, shared)
  unfolding mix_entropy mix_entropy_under_gate
  mix_entropy_blocked e shared closed =
      let other_mixes : shared.consumer_gate ≡ true
          → mix_entropy_under_gate p (record e { mixing = true }) shared
            ≡ (record e { mixing = true }, shared) =
        λ gate. rw gate refl in
      elim (Bool-cases e.mixing) [
        | inl busy ↦ rw busy refl
        | inr idle ↦
            opened e shared idle
            ∙ rw (other_mixes (ground arith))
                (ap (λ b. (record e { mixing = b }, shared)) (sym idle))
      ]

  -- `extract_entropy` behind the mixing.
  abbrev drawn :
      EntropyPool → Shared → (out : Bytes) → Outcome (Unit {0}) × Bytes × EntropyPool × Shared
  drawn e shared out =
      if e.reseed_count == 0
      then (err entropy_starvation, out, record e { mixing = false }, shared)
      else let (out', pool') = extract_loop p (length out) 0 out e.pool in
        (ok tt, out', record e { pool = pool'; mixing = false }, shared)

  -- What it answers, writes and leaves, for the pool after the mixing.
  abbrev pub extracted : EntropyPool → (out : Bytes) → Outcome (Unit {0}) × Bytes × EntropyPool
  extracted e out =
      let n = blocks (length out) in
      if e.reseed_count == 0 then (err entropy_starvation, out, e) else (
        ok tt,
        take (length out) (keystream p n e.pool),
        record e { pool = state_after p n e.pool },
      )

  opened_extract :
      (e : EntropyPool) (shared : Shared) (out : Bytes)
      → e.mixing ≡ false
      → extract_entropy p e shared out
        ≡ drawn
            (mix_entropy_under_gate p (record e { mixing = true }) shared).0
            (mix_entropy_under_gate p (record e { mixing = true }) shared).1
            out
  unfolding extract_entropy
  opened_extract e shared out idle =
      ap
        (λ b.
          if b
          then (err entropy_busy, out, e, shared)
          else drawn (mix_entropy_under_gate p (record e { mixing = true }) shared).0
              (mix_entropy_under_gate p (record e { mixing = true }) shared).1 out)
        idle

  drawn-extracted :
      (e : EntropyPool) (shared : Shared) (out : Bytes)
      → HasDigestSize p
      → drawn e shared out ≡ (
        (extracted (record e { mixing = false }) out).0,
        (extracted (record e { mixing = false }) out).1,
        (extracted (record e { mixing = false }) out).2,
        shared,
      )
  drawn-extracted e shared out size = elim (Bool-cases (e.reseed_count == 0)) [
    | inl starved ↦ rw starved refl
    | inr seeded ↦
        rw
          (
            seeded,
            extract_loop-keystream p (length out) 0 (length out) out e.pool size (omega arith)
                (omega arith),
          )
          refl
  ]

  -- With digests of 48 bytes, a valid queue and both gates open: `extract_entropy` feeds the pool
  -- the eight oldest chunks; then, if the pool was never fed, it answers `entropy_starvation` and
  -- writes nothing, and otherwise it fills the whole buffer with the keystream of the pool's bytes
  -- and leaves the pool the state behind the last block. Both gates are open afterwards.
  pub extract_entropy-keystream :
      (e : EntropyPool) (shared : Shared) (out : Bytes)
      → HasDigestSize p
      → IsValid shared.global_queue
      → e.mixing ≡ false
      → shared.consumer_gate ≡ false
      → let (result, out', e', shared') = extract_entropy p e shared out in
        let (expected, written, left) = extracted (fed e (next_chunks shared)) out in
        (result ≡ expected) × (out' ≡ written) × (e' ≡ left) × Drained shared shared'
  unfolding extract_entropy
  extract_entropy-keystream e shared out size v idle gate =
      let (pool, drained) = mix_under_gate (record e { mixing = true }) shared v gate in
      let same =
        ap {A = EntropyPool} (λ x. extracted (record x { mixing = false }) out) pool
        ∙ ap (λ x. extracted x out) (idle_again e (next_chunks shared) idle) in
      rw
        (
          opened_extract e shared out idle,
          drawn-extracted (mix_entropy_under_gate p (record e { mixing = true }) shared).0
              (mix_entropy_under_gate p (record e { mixing = true }) shared).1 out size,
        )
        (ap (λ r. r.0) same, ap (λ r. r.1) same, ap (λ r. r.2) same, drained)
