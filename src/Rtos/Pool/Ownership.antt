-- ===== src/Rtos/Pool/Ownership.antt =====
-- The ownership tokens of static_dma_pool.rs.
use native.Mathlib.Nat.{pow-suc}
use shawn_core_libraries.Base.{
  ℕ, zero, suc, ◌+◌, ◌*◌, ◌/◌, ◌^◌, ◌≤◌, ◌<◌, ◌≡◌, ◌≢◌, refl, ap, ap₂, ◌∙◌, true, List, [], ◌∷◌,
  get_or, get_or-set, ok, err, bit_and, bit_or, arith, length,
}
use shawn_core_libraries.Base.Bits.{or_halves, and_halves, bit_and-zero}
use shawn_core_libraries.Rtos.Error.{double_free}
use shawn_core_libraries.Rtos.Pool.{
  StaticDmaPool, ownership_allocated_bit, ownership_generation_mask, pack_head, unpack_head,
  next_generation, allocate, free,
}

bit_or-zero : (fuel a : ℕ) → a ≤ fuel → bit_or a 0 ≡ a
bit_or-zero zero a h = ap (λ n. bit_or n 0) {x = a} {y = 0} (omega arith) ∙ omega arith
bit_or-zero (suc fuel) a h = omega (arith, or_halves a 0, bit_or-zero fuel (a / 2) (omega arith))

-- Bits above a number are added to it.
pub bit_or_above : (g k a : ℕ) → a < 2 ^ k → bit_or (g * 2 ^ k) a ≡ g * 2 ^ k + a
bit_or_above g zero a h =
    ap₂ bit_or {x = g * 2 ^ 0} {y = g} {u = a} {v = 0} (omega arith) (omega arith)
    ∙ bit_or-zero g g (omega arith)
    ∙ omega arith
bit_or_above g (suc k) a h = omega (
  arith,
  or_halves (g * 2 ^ suc k) a,
  ap (λ n. bit_or n (a / 2)) {x = g * 2 ^ suc k / 2} {y = g * 2 ^ k} (omega (arith, doubled)),
  bit_or_above g k (a / 2) (omega (arith, pow-suc 2 k)),
  doubled,
)
  where
    doubled : g * 2 ^ suc k ≡ g * 2 ^ k * 2
    doubled = omega (arith, pow-suc 2 k, ap (λ x. g * x) (pow-suc 2 k))

-- Packing and unpacking the free-list head are inverse on 32-bit words.
pub unpack_head-pack_head :
    (index generation : ℕ)
    → index < 2 ^ 32
    → generation < 2 ^ 32
    → unpack_head (pack_head index generation) ≡ (index, generation)
unfolding pack_head unpack_head
unpack_head-pack_head index generation hi hg = ground (arith, bit_or_above generation 32 index hi)

pub allocated_state :
    (t : ℕ) → t ≤ ownership_generation_mask → bit_or ownership_allocated_bit t ≡ 2 ^ 63 + t
allocated_state t h = omega (arith, bit_or_above 1 63 t (omega arith))

-- A slot of an initialized pool that is allocated under a token is freed by that token; any other
-- token is reported as a double free and changes nothing.
pub free_exact :
    (capacity : ℕ) (pool : StaticDmaPool) (slot token generation : ℕ)
    → pool.is_initialized ≡ true
    → slot < capacity
    → token ≤ ownership_generation_mask
    → get_or pool.ownership slot 0 ≡ bit_or ownership_allocated_bit token
    → (generation ≡ token → (free capacity pool slot generation).0 ≡ ok tt)
      × (generation ≢ token → free capacity pool slot generation ≡ (err double_free, pool))
unfolding free
free_exact capacity pool slot token generation up inside small held = (
  λ same. ground (arith, allocated_state token small, allocated_state generation),
  λ other. ground (arith, allocated_state token small, allocated_state generation),
)

out_of_range : (words : List ℕ) (i : ℕ) → length words ≤ i → get_or words i 0 ≡ 0
out_of_range [] i h = refl
out_of_range (w ∷ words) zero h = absurd (omega arith)
out_of_range (w ∷ words) (suc i) h = out_of_range words i (omega arith)

-- What is freed cannot be freed again with the same token: the second call is a double free and
-- changes nothing.
pub free_twice :
    (capacity : ℕ) (pool : StaticDmaPool) (slot generation : ℕ) {pool' : StaticDmaPool}
    → free capacity pool slot generation ≡ (ok tt, pool')
    → free capacity pool' slot generation ≡ (err double_free, pool')
unfolding free
free_twice capacity pool slot generation {pool'} h = ground (
  arith,
  allocated_state generation,
  get_or-set pool.ownership slot slot generation 0,
  out_of_range pool.ownership slot,
)

bit_and-le : (fuel a b : ℕ) → b ≤ fuel → bit_and a b ≤ b
bit_and-le zero a b h =
    omega (arith, bit_and-zero a a (omega arith), ap (bit_and a) {x = b} {y = 0} (omega arith))
bit_and-le (suc fuel) a b h =
    omega (arith, and_halves a b, bit_and-le fuel (a / 2) (b / 2) (omega arith))

pub next_generation-le : (state : ℕ) → next_generation state ≤ ownership_generation_mask
unfolding next_generation
next_generation-le state =
    bit_and-le ownership_generation_mask _ ownership_generation_mask (omega arith)

-- If `allocate` hands out a slot of a pool with a state word for each of its slots, its token frees
-- that slot, and its pointer is the slot's address.
pub allocate-free :
    (capacity : ℕ) (pool : StaticDmaPool) (item_size slot token pointer : ℕ) {pool' : StaticDmaPool}
    → length pool.ownership ≡ capacity
    → slot < capacity
    → allocate capacity pool item_size ≡ (ok (slot, token, pointer), pool')
    → ((free capacity pool' slot token).0 ≡ ok tt) × (pointer ≡ pool.memory + slot * item_size)
unfolding free allocate
allocate-free capacity pool item_size slot token pointer {pool'} len inside h = ground (
  arith,
  len,
  get_or-set pool.ownership slot slot (bit_or ownership_allocated_bit token) 0,
  next_generation-le (get_or pool.ownership slot 0),
)
