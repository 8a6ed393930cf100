-- ===== src/Crypto/Entropy/Keystream.antt =====
-- What `extract_entropy` of entropy_pool.rs writes.
use shawn_core_libraries.Base.{
  ℕ, zero, suc, ◌+◌, ◌-◌, ◌/◌, ◌≤◌, ◌<◌, ◌≡◌, sym, ap, ap₂, ◌∙◌, [], ◌∷◌, ◌++◌, length,
  length-append, take, drop, min, ltb, Bytes, Bool-cases, inl, inr, arith,
}
use shawn_core_libraries.Base.Encoding.{
  take-append, take-append_split, take-min, take-all, length-take, length-drop,
}
use mathlib.Core.List.{append_assoc, append-nil}
use shawn_core_libraries.Crypto.Primitives.{Primitives, HasDigestSize}
use shawn_core_libraries.Crypto.Entropy.Pool.{extract_loop, copy_at}

-- Blocks of 48 bytes that cover so many bytes.
abbrev pub blocks : ℕ → ℕ
blocks n = (n + 47) / 48

-- One more block of at least one byte.
next_block : (left : ℕ) → 0 < left → blocks left ≡ suc (blocks (left - min 48 left))
next_block left some_left = omega arith

first_bytes :
    (left : ℕ) (block : Bytes) → length block ≡ 48 → take left block ≡ take (min 48 left) block
first_bytes left block size = sym (take-min left block) ∙ ap (λ k. take (min k left) block) size

copied :
    (out bytes : Bytes) (offset : ℕ)
    → offset + length bytes ≤ length out
    → (length (copy_at out offset bytes) ≡ length out)
      × (take (offset + length bytes) (copy_at out offset bytes) ≡ take offset out ++ bytes)
copied out bytes offset fits = (
  omega (
    arith,
    length-append (take offset out ++ bytes) (drop (offset + length bytes) out),
    length-append (take offset out) bytes,
    length-take offset out,
    length-drop (offset + length bytes) out,
  ),
  take-append (offset + length bytes) (take offset out ++ bytes) _
      (omega (arith, length-append (take offset out) bytes, length-take offset out)),
)

-- The generator that the pool stands for: from one state come the output block and, under another
-- prefix, the next state.
module _ (p : Primitives) where
  unfoldable pub keystream : (n : ℕ) (state : Bytes) → Bytes
  keystream zero state = []
  keystream (suc n) state = p.sha384 (0x00 ∷ state) ++ keystream n (p.sha384 (0x01 ∷ state))

  unfoldable pub state_after : (n : ℕ) (state : Bytes) → Bytes
  state_after zero state = state
  state_after (suc n) state = state_after n (p.sha384 (0x01 ∷ state))

  -- The bytes behind the first block.
  abbrev later_bytes : (left : ℕ) (state : Bytes) → Bytes
  later_bytes left state =
      take (left - min 48 left) (keystream (blocks (left - min 48 left)) (p.sha384 (0x01 ∷ state)))

  taken :
      (left : ℕ) (state : Bytes)
      → HasDigestSize p
      → 0 < left
      → take left (keystream (blocks left) state)
        ≡ take (min 48 left) (p.sha384 (0x00 ∷ state)) ++ later_bytes left state
  unfolding keystream
  taken left state size some_left =
      let block = p.sha384 (0x00 ∷ state) in
      let rest = keystream (blocks (left - min 48 left)) (p.sha384 (0x01 ∷ state)) in
      ap (λ n. take left (keystream n state)) (next_block left some_left)
      ∙ take-append_split left block rest
      ∙ ap₂ ◌++◌ (first_bytes left block (size (0x00 ∷ state))) (
          ap (λ k. take k rest) {x = left - length block} {y = left - min 48 left}
            (omega (arith, size (0x00 ∷ state))))

  nothing_left :
      (offset left : ℕ) (out state : Bytes)
      → length out ≡ offset + left
      → left ≡ 0
      → ◌≡◌ {A = Bytes × Bytes}
          (out, state)
          (
            take offset out ++ take left (keystream (blocks left) state),
            state_after (blocks left) state,
          )
  unfolding state_after
  nothing_left offset left out state len none_left =
      ap (λ o. (o, state))
        (sym (take-all offset out (omega arith)) ∙ sym (append-nil (take offset out)))
      ∙ ap
          (λ l.
            (take offset out ++ take l (keystream (blocks l) state), state_after (blocks l) state))
          (sym none_left)

  -- One turn of the loop leaves the first block in the buffer.
  one_block :
      (offset left : ℕ) (out state : Bytes)
      → HasDigestSize p
      → length out ≡ offset + left
      → 0 < left
      → let first = take (min 48 left) (p.sha384 (0x00 ∷ state)) in
        let out' = copy_at out offset first in
        (length out' ≡ length out)
        × (take (offset + min 48 left) out' ++ later_bytes left state
            ≡ take offset out ++ take left (keystream (blocks left) state))
        × (state_after (blocks (left - min 48 left)) (p.sha384 (0x01 ∷ state))
            ≡ state_after (blocks left) state)
  unfolding state_after
  one_block offset left out state size len some_left =
      let first = take (min 48 left) (p.sha384 (0x00 ∷ state)) in
      let (kept, front) = copied out first offset (omega (arith, first_length)) in
      (
        kept,
        ap (λ l. l ++ later_bytes left state)
              (ap (λ k. take (offset + k) (copy_at out offset first)) (sym first_length) ∙ front)
            ∙ append_assoc (take offset out) first (later_bytes left state)
            ∙ ap (λ l. take offset out ++ l) (sym (taken left state size some_left)),
        ap (λ n. state_after n state) (sym (next_block left some_left)),
      )
    where
      first_length : length (take (min 48 left) (p.sha384 (0x00 ∷ state))) ≡ min 48 left
      first_length =
          omega (arith, length-take (min 48 left) (p.sha384 (0x00 ∷ state)), size (0x00 ∷ state))

  pub extract_loop-keystream :
      (fuel offset left : ℕ) (out state : Bytes)
      → HasDigestSize p
      → length out ≡ offset + left
      → left ≤ fuel
      → extract_loop p fuel offset out state ≡ (
        take offset out ++ take left (keystream (blocks left) state),
        state_after (blocks left) state,
      )
  unfolding extract_loop
  extract_loop-keystream zero offset left out state size len enough =
      nothing_left offset left out state len (omega arith)
  extract_loop-keystream (suc fuel) offset left out state size len enough =
      elim (Bool-cases (ltb offset (length out))) [
        | inl more ↦
            let (kept, bytes, next) = one_block offset left out state size len (ground arith) in
            rw (more, remaining)
              (extract_loop-keystream fuel (offset + min 48 left) (left - min 48 left) _ _ size
                  (omega (arith, kept)) (ground arith)
                ∙ ap₂ {C = Bytes × Bytes} (λ a b. (a, b)) bytes next)
        | inr finished ↦ rw finished (nothing_left offset left out state len (ground arith))
      ]
    where
      remaining : length out - offset ≡ left
      remaining = omega arith
