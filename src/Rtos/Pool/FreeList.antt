-- ===== src/Rtos/Pool/FreeList.antt =====
-- The free list of static_dma_pool.rs.
use shawn_core_libraries.Base.{
  ℕ, ◌+◌, ◌-◌, ◌*◌, ◌%◌, ◌^◌, ◌≤◌, ◌<◌, ◌≡◌, refl, ap, ◌∙◌, Bool, true, false, ◌||◌, List, [], ◌∷◌,
  get_or, set, get_or-set, get_or-set_ne, ok, err, ltb, ◌==◌, bit_or, arith, length, length-set,
}
use shawn_core_libraries.Rtos.Error.{out_of_memory}
use shawn_core_libraries.Rtos.Pool.{
  StaticDmaPool, free_list_empty, pack_head, unpack_head, next_generation, allocate, free,
  ownership_allocated_bit, ownership_generation_mask,
}
use shawn_core_libraries.Rtos.Pool.Ownership.{
  unpack_head-pack_head, allocated_state, next_generation-le,
}

-- The list that starts at an index, and whether it has a slot.
abbrev pub has : ℕ → List ℕ → Bool
has slot [] = false
has slot (i ∷ is) = i == slot || has slot is

abbrev pub Linked : (capacity : ℕ) → List ℕ → ℕ → List ℕ → Type 0
Linked capacity next index [] = index ≡ free_list_empty
Linked capacity next index (i ∷ is) =
    (index ≡ i)
    × (i < capacity)
    × (has i is ≡ false)
    × Linked capacity next (get_or next i 0 % 2 ^ 32) is

Linked-set :
    (capacity : ℕ) (next : List ℕ) (index slot word : ℕ) (is : List ℕ)
    → has slot is ≡ false
    → Linked capacity next index is
    → Linked capacity (set next slot word) index is
Linked-set capacity next index slot word [] h l = l
Linked-set capacity next index slot word (i ∷ is) h (e, inside, once, l) = (
  e,
  inside,
  once,
  rw (get_or-set_ne next slot i word 0 (λ same. absurd (ground arith)))
      (Linked-set capacity next (get_or next i 0 % 2 ^ 32) slot word is (ground arith) l),
)

-- The slots of the free list are those that are not allocated.
pub record IsValid (capacity : ℕ) (pool : StaticDmaPool) (frees : List ℕ) : Type 0 where
  pub ready : pool.is_initialized ≡ true
  pub bound : capacity < 2 ^ 32
  pub sizes : (length pool.next ≡ capacity) × (length pool.ownership ≡ capacity)
  pub linked : Linked capacity pool.next (unpack_head pool.free_list_head).0 frees
  pub owned :
      (slot : ℕ) → slot < capacity → ltb (get_or pool.ownership slot 0) (2 ^ 63) ≡ has slot frees

-- In a well-formed pool with no slot free, `allocate` reports that it is out of memory and changes
-- nothing.
pub allocate_empty :
    (capacity : ℕ) (pool : StaticDmaPool) (item_size : ℕ)
    → IsValid capacity pool []
    → allocate capacity pool item_size ≡ (err out_of_memory, pool)
unfolding allocate
allocate_empty capacity pool item_size v = ground (arith, v.ready, v.linked)

abbrev pub claimed : StaticDmaPool → (slot : ℕ) → StaticDmaPool
claimed pool slot = record pool {
  free_list_head =
      pack_head (get_or pool.next slot 0 % 2 ^ 32)
        (((unpack_head pool.free_list_head).1 + 1) % 2 ^ 32);
  ownership =
      set pool.ownership slot
        (bit_or ownership_allocated_bit (next_generation (get_or pool.ownership slot 0)));
}

pub allocate_ok :
    (capacity : ℕ) (pool : StaticDmaPool) (item_size slot : ℕ) (frees : List ℕ)
    → IsValid capacity pool (slot ∷ frees)
    → allocate capacity pool item_size ≡ (
      ok (slot, next_generation (get_or pool.ownership slot 0), pool.memory + slot * item_size),
      claimed pool slot,
    )
unfolding allocate unpack_head
allocate_ok capacity pool item_size slot frees v =
    let first : pool.free_list_head % 2 ^ 32 ≡ slot = v.linked.0 in
    let in_range : slot < 2 ^ 32 - 1 = omega (arith, v.linked.1, v.bound) in
    let not_empty : pool.free_list_head % 2 ^ 32 < 2 ^ 32 - 1 = omega (arith, first, in_range) in
    rw⁻¹ first (ground (arith, v.ready, not_empty))

pub claimed-IsValid :
    (capacity : ℕ) (pool : StaticDmaPool) (slot : ℕ) (frees : List ℕ)
    → IsValid capacity pool (slot ∷ frees)
    → IsValid capacity (claimed pool slot) frees
claimed-IsValid capacity pool slot frees v = record {
  ready = v.ready;
  bound = v.bound;
  sizes = (v.sizes.0, length-set pool.ownership slot _ ∙ v.sizes.1);
  linked =
      rw
        (unpack_head-pack_head (get_or pool.next slot 0 % 2 ^ 32)
          (((unpack_head pool.free_list_head).1 + 1) % 2 ^ 32) (omega arith) (omega arith))
        v.linked.3;
  owned = λ i inside. ground (
    arith,
    v.owned i inside,
    v.linked,
    v.sizes,
    allocated_state (next_generation (get_or pool.ownership slot 0))
        (next_generation-le (get_or pool.ownership slot 0)),
    get_or-set pool.ownership slot i
        (bit_or ownership_allocated_bit (next_generation (get_or pool.ownership slot 0))) 0,
    ap (λ n. has n frees) {x = i} {y = slot},
  );
}

-- In a well-formed pool with a free slot, `allocate` hands out the first slot of the free list,
-- which no live allocation holds, with its next generation and its address; the pool stays well
-- formed with the rest of the list, so that this slot alone has become allocated.
pub allocate_first :
    (capacity : ℕ) (pool : StaticDmaPool) (item_size slot : ℕ) (frees : List ℕ)
    → IsValid capacity pool (slot ∷ frees)
    → let (r, pool') = allocate capacity pool item_size in
      (r
        ≡ ok (slot, next_generation (get_or pool.ownership slot 0), pool.memory + slot * item_size))
      × IsValid capacity pool' frees
allocate_first capacity pool item_size slot frees v =
    rw (allocate_ok capacity pool item_size slot frees v)
      (refl, claimed-IsValid capacity pool slot frees v)

abbrev pub freed : StaticDmaPool → (slot generation : ℕ) → StaticDmaPool
freed pool slot generation = record pool {
  ownership = set pool.ownership slot generation;
  next = set pool.next slot (pool.free_list_head % 2 ^ 32);
  free_list_head = pack_head (slot % 2 ^ 32) (((unpack_head pool.free_list_head).1 + 1) % 2 ^ 32);
}

-- What a successful `free` has found.
pub record Frees (capacity : ℕ) (pool : StaticDmaPool) (slot generation : ℕ) : Type 0 where
  inside : slot < capacity
  small : generation ≤ ownership_generation_mask
  held : get_or pool.ownership slot 0 ≡ bit_or ownership_allocated_bit generation
  pub result : free capacity pool slot generation ≡ (ok tt, freed pool slot generation)

pub free_ok :
    (capacity : ℕ) (pool : StaticDmaPool) (slot generation : ℕ)
    → (free capacity pool slot generation).0 ≡ ok tt
    → Frees capacity pool slot generation
unfolding free
free_ok capacity pool slot generation h = record {
  inside = ground arith;
  small = ground arith;
  held = ground arith;
  result = ground arith;
}

pub freed-IsValid :
    (capacity : ℕ) (pool : StaticDmaPool) (slot generation : ℕ) (frees : List ℕ)
    → IsValid capacity pool frees
    → Frees capacity pool slot generation
    → IsValid capacity (freed pool slot generation) (slot ∷ frees)
unfolding unpack_head
freed-IsValid capacity pool slot generation frees v f = record {
  ready = v.ready;
  bound = v.bound;
  sizes = (length-set pool.next slot _ ∙ v.sizes.0, length-set pool.ownership slot _ ∙ v.sizes.1);
  linked = (
    head,
    f.inside,
    new_slot,
    rw behind (Linked-set capacity pool.next _ slot _ frees new_slot v.linked),
  );
  owned = λ i inside. ground (
    arith,
    v.owned i inside,
    v.sizes,
    f.inside,
    f.small,
    get_or-set pool.ownership slot i generation 0,
  );
}
  where
    new_slot : has slot frees ≡ false
    new_slot = ground (arith, v.owned slot f.inside, f.held, allocated_state generation f.small)

    head :
        pack_head (slot % 2 ^ 32) (((unpack_head pool.free_list_head).1 + 1) % 2 ^ 32) % 2 ^ 32
        ≡ slot
    head =
        ap (λ h. h.0)
          (unpack_head-pack_head (slot % 2 ^ 32)
            (((unpack_head pool.free_list_head).1 + 1) % 2 ^ 32) (omega arith) (omega arith))
        ∙ omega (arith, v.bound, f.inside)

    behind :
        get_or (set pool.next slot (pool.free_list_head % 2 ^ 32)) slot 0 % 2 ^ 32
        ≡ pool.free_list_head % 2 ^ 32
    behind =
        ground (
          arith,
          v.sizes,
          f.inside,
          get_or-set pool.next slot slot (pool.free_list_head % 2 ^ 32) 0,
        )

-- A successful `free` of a well-formed pool leaves a well-formed pool whose free list begins with the
-- slot.
pub free_first :
    (capacity : ℕ) (pool : StaticDmaPool) (slot generation : ℕ) (frees : List ℕ)
    → IsValid capacity pool frees
    → (free capacity pool slot generation).0 ≡ ok tt
    → IsValid capacity (free capacity pool slot generation).1 (slot ∷ frees)
free_first capacity pool slot generation frees v h =
    let f = free_ok capacity pool slot generation h in
    rw f.result (freed-IsValid capacity pool slot generation frees v f)
