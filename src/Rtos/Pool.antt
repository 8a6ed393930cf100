-- ===== src/Rtos/Pool.antt =====
-- shawncore-rtos-sync/src/static_dma_pool.rs: the pool's calls, each of which runs to its end before
-- the next one, so that the exchange of the free-list head succeeds. The wipe of a freed buffer
-- leaves no trace in the pool's own state.
pub mod Ownership
pub mod FreeList
pub mod Tokens
use shawn_core_libraries.Base.{
  ℕ, zero, suc, ◌+◌, ◌-◌, ◌*◌, ◌/◌, ◌%◌, ◌^◌, Bool, true, false, not, ◌||◌, List, [], ◌∷◌, get_or,
  set, replicate, Result, ok, err, if◌then◌else◌, ltb, leb, ◌==◌, bit_and, bit_or,
}
use shawn_core_libraries.Rtos.Error.{
  AllocatorError, out_of_memory, address_out_of_bounds, invalid_alignment, double_free,
  not_initialized, already_initialized,
}

-- `u32::MAX`.
abbrev pub free_list_empty : ℕ
free_list_empty = 2 ^ 32 - 1

abbrev pub ownership_allocated_bit : ℕ
ownership_allocated_bit = 2 ^ 63

abbrev pub ownership_generation_mask : ℕ
ownership_generation_mask = ownership_allocated_bit - 1

-- `((generation as usize) << 32) | index as usize`.
unfoldable pub pack_head : (index generation : ℕ) → ℕ
pack_head index generation = bit_or (generation * 2 ^ 32 % 2 ^ 64) index

unfoldable pub unpack_head : ℕ → ℕ × ℕ
unpack_head value = (value % 2 ^ 32, value / 2 ^ 32 % 2 ^ 32)

pub record StaticDmaPool : Type 0 where
  pub memory : ℕ  -- the address of the storage
  pub free_list_head : ℕ  -- usize
  pub next : List ℕ  -- usize
  pub ownership : List ℕ  -- u64
  pub is_initialized : Bool
  pub is_initializing : Bool

-- `usize::div_ceil(64)`.
abbrev pub div_ceil_64 : ℕ → ℕ
div_ceil_64 n = (n + 63) / 64

-- The `next` entries that the loop of `init` stores, from `index` on.
unfoldable pub links : (capacity index count : ℕ) → List ℕ
links capacity index zero = []
links capacity index (suc count) =
    (if ltb (index + 1) capacity then index + 1 else free_list_empty)
    ∷ links capacity (index + 1) count

-- The state word of a slot that is claimed, and the token that it carries.
unfoldable pub next_generation : (observed_state : ℕ) → ℕ
next_generation observed_state =
    bit_and (bit_and observed_state ownership_generation_mask + 1) ownership_generation_mask

module _ (capacity : ℕ) where
  unfoldable pub new : StaticDmaPool
  unfolding pack_head
  new = record {
    memory = 0;
    free_list_head = pack_head 0 0;
    next = replicate capacity free_list_empty;
    ownership = replicate capacity 0;
    is_initialized = false;
    is_initializing = false;
  }

  -- The address, the size and alignment of a buffer, the size offered and `BITMAP_WORDS`.
  unfoldable pub init :
      StaticDmaPool
      → (base_ptr item_size item_align size_in_bytes bitmap_words : ℕ)
      → Result AllocatorError (Unit {0}) × StaticDmaPool
  unfolding links pack_head
  init pool base_ptr item_size item_align size_in_bytes bitmap_words =
      if item_size == 0
      then (err address_out_of_bounds, pool)
      else if base_ptr == 0
      then (err address_out_of_bounds, pool)
      else if ltb (2 ^ 64 - 1) (capacity * item_size)
      then (err address_out_of_bounds, pool)
      else if ltb size_in_bytes (capacity * item_size)
          || ltb (2 ^ 64 - 1) (base_ptr + capacity * item_size)
      then (err address_out_of_bounds, pool)
      else if not (base_ptr % 4096 == 0) || not (base_ptr % item_align == 0)
      then (err invalid_alignment, pool)
      else if not (bitmap_words == div_ceil_64 capacity)
      then (err address_out_of_bounds, pool)
      else if pool.is_initialized || pool.is_initializing
      then (err already_initialized, pool)
      else (
        ok tt,
        record {
          memory = base_ptr;
          free_list_head = pack_head 0 0;
          next = links capacity 0 capacity;
          ownership = replicate capacity 0;
          is_initialized = true;
          is_initializing = false;
        },
      )

  -- The slot, its token and its address.
  unfoldable pub allocate :
      StaticDmaPool → (item_size : ℕ) → Result AllocatorError (ℕ × ℕ × ℕ) × StaticDmaPool
  unfolding unpack_head pack_head
  allocate pool item_size =
      if not pool.is_initialized
      then (err not_initialized, pool)
      else let (index, generation) = unpack_head pool.free_list_head in
        if index == free_list_empty
        then (err out_of_memory, pool)
        else let next_index = get_or pool.next index 0 % 2 ^ 32 in
          let token = next_generation (get_or pool.ownership index 0) in
          (
            ok (index, token, pool.memory + index * item_size),
            record pool {
              free_list_head = pack_head next_index ((generation + 1) % 2 ^ 32);
              ownership = set pool.ownership index (bit_or ownership_allocated_bit token);
            },
          )

  unfoldable pub free :
      StaticDmaPool → (buffer_idx generation : ℕ) → Result AllocatorError (Unit {0}) × StaticDmaPool
  unfolding unpack_head pack_head
  free pool buffer_idx generation =
      if not pool.is_initialized
      then (err not_initialized, pool)
      else if leb capacity buffer_idx
      then (err address_out_of_bounds, pool)
      else if ltb ownership_generation_mask generation
      then (err double_free, pool)
      else if not (get_or pool.ownership buffer_idx 0 == bit_or ownership_allocated_bit generation)
      then (err double_free, pool)
      else let (index, head_generation) = unpack_head pool.free_list_head in
        (
          ok tt,
          record pool {
            ownership = set pool.ownership buffer_idx generation;
            next = set pool.next buffer_idx (pool.free_list_head % 2 ^ 32);
            free_list_head = pack_head (buffer_idx % 2 ^ 32) ((head_generation + 1) % 2 ^ 32);
          },
        )
