-- ===== src/Rtos/Pool/Tokens.antt =====
-- A slot of static_dma_pool.rs that is handed out again.
use shawn_core_libraries.Base.{
  ℕ, ◌+◌, ◌*◌, ◌≡◌, ◌≢◌, refl, sym, ap, ◌∙◌, List, ◌∷◌, get_or, get_or-set_self, bit_and, ok, err,
  bit_or, arith,
}
use shawn_core_libraries.Rtos.Error.{double_free}
use shawn_core_libraries.Base.Bits.{and_halves}
use shawn_core_libraries.Rtos.Pool.{
  StaticDmaPool, next_generation, allocate, free, ownership_allocated_bit,
  ownership_generation_mask,
}
use shawn_core_libraries.Rtos.Pool.Ownership.{next_generation-le, free_exact}
use shawn_core_libraries.Rtos.Pool.FreeList.{
  IsValid, claimed, freed, allocate_ok, claimed-IsValid, free_ok, freed-IsValid,
}

-- Consecutive tokens differ in their last bit.
next_generation_differs : (t : ℕ) → next_generation t ≢ t
unfolding next_generation
next_generation_differs t e = absurd (
    omega (
      arith,
      and_halves t ownership_generation_mask,
      and_halves (bit_and t ownership_generation_mask + 1) ownership_generation_mask,
      e,
    ))

claimed_word :
    (capacity : ℕ) (pool : StaticDmaPool) (slot : ℕ) (frees : List ℕ)
    → IsValid capacity pool (slot ∷ frees)
    → get_or (claimed pool slot).ownership slot 0
      ≡ bit_or ownership_allocated_bit (next_generation (get_or pool.ownership slot 0))
claimed_word capacity pool slot frees v =
    get_or-set_self pool.ownership slot _ 0 (omega (arith, v.sizes.1, v.linked.1))

-- The token of a slot that was just claimed, and any other one.
free-claimed :
    (capacity : ℕ) (pool : StaticDmaPool) (slot generation : ℕ) (frees : List ℕ)
    → IsValid capacity pool (slot ∷ frees)
    → let token = next_generation (get_or pool.ownership slot 0) in
      (generation ≡ token → (free capacity (claimed pool slot) slot generation).0 ≡ ok tt)
      × (generation ≢ token
          → free capacity (claimed pool slot) slot generation
            ≡ (err double_free, claimed pool slot))
free-claimed capacity pool slot generation frees v =
    free_exact capacity (claimed pool slot) slot (next_generation (get_or pool.ownership slot 0))
      generation v.ready v.linked.1 (next_generation-le (get_or pool.ownership slot 0))
      (claimed_word capacity pool slot frees v)

-- In a well-formed pool with a free slot: `allocate` hands it out under a token, and that token frees
-- it; the next `allocate` hands out the same slot under another token, with which the slot is
-- allocated, so that a second `free` under the first token is a double free and changes nothing.
pub stale_token :
    (capacity : ℕ) (pool : StaticDmaPool) (item_size slot : ℕ) (frees : List ℕ)
    → IsValid capacity pool (slot ∷ frees)
    → let (r, held) = allocate capacity pool item_size in
      let token = next_generation (get_or pool.ownership slot 0) in
      let (f, back) = free capacity held slot token in
      let (r', again) = allocate capacity back item_size in
      (r ≡ ok (slot, token, pool.memory + slot * item_size))
      × (f ≡ ok tt)
      × IsValid capacity back (slot ∷ frees)
      × ((token' : ℕ) × (token' ≢ token)
          × (r' ≡ ok (slot, token', pool.memory + slot * item_size))
          × (free capacity again slot token ≡ (err double_free, again))
          × ((free capacity again slot token').0 ≡ ok tt))
stale_token capacity pool item_size slot frees v =
    let token = next_generation (get_or pool.ownership slot 0) in
    let held = claimed pool slot in
    let freely = (free-claimed capacity pool slot token frees v).0 refl in
    let f = free_ok capacity held slot token freely in
    let back = freed held slot token in
    let valid_back =
      freed-IsValid capacity held slot token frees (claimed-IsValid capacity pool slot frees v) f in
    let word : get_or back.ownership slot 0 ≡ token =
      get_or-set_self held.ownership slot token 0
        (omega (arith, (claimed-IsValid capacity pool slot frees v).sizes.1, v.linked.1)) in
    let token' = next_generation (get_or back.ownership slot 0) in
    let other : token' ≢ token =
      λ same. next_generation_differs token (sym (ap next_generation word) ∙ same) in
    rw (allocate_ok capacity pool item_size slot frees v) (
      rw f.result (
        rw (allocate_ok capacity back item_size slot frees valid_back) (
          refl,
          refl,
          valid_back,
          (
            token',
            other,
            refl,
            (free-claimed capacity back slot token frees valid_back).1 (λ same. other (sym same)),
            (free-claimed capacity back slot token' frees valid_back).0 refl,
          ),
        )))
