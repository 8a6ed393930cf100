-- ===== src/Crypto/Ffi/Memory.antt =====
-- Reading and writing slices of the host's memory.
use shawn_core_libraries.Base.{
  ℕ, zero, suc, ◌+◌, ◌<◌, ◌≡◌, refl, ap, ap₂, ◌-◌, ◌∙◌, sym, [], ◌∷◌, length, get_or, Bytes, arith,
}
use shawn_core_libraries.Crypto.Ffi.{Memory, read, write}
use shawn_core_libraries.Crypto.Ffi.Ranges.{InRange, Disjoint, Disjoint-sym}

pub length-read : (memory : Memory) (ptr len : ℕ) → length (read memory ptr len) ≡ len
unfolding read
length-read memory ptr zero = refl
length-read memory ptr (suc len) = ap suc (length-read memory (ptr + 1) len)

-- A slice is its bytes.
pub read_ext :
    (memory memory' : Memory) (ptr len : ℕ)
    → ((address : ℕ) → InRange ptr len address → memory address ≡ memory' address)
    → read memory ptr len ≡ read memory' ptr len
unfolding read
read_ext memory memory' ptr zero same = refl
read_ext memory memory' ptr (suc len) same =
    ap₂ (λ b bs. b ∷ bs) (same ptr (omega arith, omega arith))
      (read_ext memory memory' (ptr + 1) len
        (λ address (above, below). same address (omega arith, omega arith)))

pub write_outside :
    (memory : Memory) (ptr : ℕ) (bytes : Bytes) (address : ℕ)
    → ¬ InRange ptr (length bytes) address
    → write memory ptr bytes address ≡ memory address
unfolding write
write_outside memory ptr bytes address outside = ground arith

-- Writing elsewhere does not change a slice.
pub read-write_other :
    (memory : Memory) (ptr len other n : ℕ) (bytes : Bytes)
    → length bytes ≡ n
    → Disjoint other n ptr len
    → read (write memory other bytes) ptr len ≡ read memory ptr len
read-write_other memory ptr len other n bytes size apart =
    read_ext (write memory other bytes) memory ptr len (λ address inside.
      write_outside memory other bytes address
        (λ written. apart address ((written.0, omega (arith, written.1, size)), inside)))

read_as :
    (memory : Memory) (ptr : ℕ) (bytes : Bytes)
    → ((i : ℕ) → i < length bytes → memory (ptr + i) ≡ get_or bytes i 0)
    → read memory ptr (length bytes) ≡ bytes
unfolding read
read_as memory ptr [] same = refl
read_as memory ptr (b ∷ bs) same =
    ap₂ (λ x xs. x ∷ xs) (ap memory {x = ptr} {y = ptr + 0} (omega arith) ∙ same 0 (omega arith))
      (read_as memory (ptr + 1) bs (λ i below.
        ap memory {x = ptr + 1 + i} {y = ptr + suc i} (omega arith) ∙ same (suc i) (omega arith)))

-- A slice that was written is read back.
pub read-write :
    (memory : Memory) (ptr len : ℕ) (bytes : Bytes)
    → length bytes ≡ len
    → read (write memory ptr bytes) ptr len ≡ bytes
unfolding write
read-write memory ptr len bytes size =
    ap (read (write memory ptr bytes) ptr) (sym size)
    ∙ read_as (write memory ptr bytes) ptr bytes (λ i below.
      ground (arith, ap (λ k. get_or bytes k 0) {x = ptr + i - ptr} {y = i} (omega arith)))

-- Three slices written one after the other, and a slice apart from all of them.
pub three_writes :
    (memory : Memory) (a la b lb c lc : ℕ) (x y z : Bytes)
    → length x ≡ la
    → length y ≡ lb
    → length z ≡ lc
    → Disjoint a la b lb
    → Disjoint a la c lc
    → Disjoint b lb c lc
    → let memory' = write (write (write memory a x) b y) c z in
      (read memory' a la ≡ x) × (read memory' b lb ≡ y) × (read memory' c lc ≡ z)
three_writes memory a la b lb c lc x y z hx hy hz ab ac bc =
    let first = write memory a x in
    let second = write first b y in
    (
      read-write_other second a la c lc z hz (Disjoint-sym a la c lc ac)
          ∙ read-write_other first a la b lb y hy (Disjoint-sym a la b lb ab)
          ∙ read-write memory a la x hx,
      read-write_other second b lb c lc z hz (Disjoint-sym b lb c lc bc)
          ∙ read-write first b lb y hy,
      read-write second c lc z hz,
    )

pub three_writes_other :
    (memory : Memory) (a la b lb c lc d ld : ℕ) (x y z : Bytes)
    → length x ≡ la
    → length y ≡ lb
    → length z ≡ lc
    → Disjoint a la d ld
    → Disjoint b lb d ld
    → Disjoint c lc d ld
    → read (write (write (write memory a x) b y) c z) d ld ≡ read memory d ld
three_writes_other memory a la b lb c lc d ld x y z hx hy hz ad bd cd =
    read-write_other (write (write memory a x) b y) d ld c lc z hz cd
    ∙ read-write_other (write memory a x) d ld b lb y hy bd
    ∙ read-write_other memory d ld a la x hx ad

pub three_writes_outside :
    (memory : Memory) (a la b lb c lc address : ℕ) (x y z : Bytes)
    → length x ≡ la
    → length y ≡ lb
    → length z ≡ lc
    → ¬ InRange a la address
    → ¬ InRange b lb address
    → ¬ InRange c lc address
    → write (write (write memory a x) b y) c z address ≡ memory address
three_writes_outside memory a la b lb c lc address x y z hx hy hz na nb nc =
    write_outside (write (write memory a x) b y) c z address
      (λ (above, below). nc (above, omega (arith, below, hz)))
    ∙ write_outside (write memory a x) b y address
        (λ (above, below). nb (above, omega (arith, below, hy)))
    ∙ write_outside memory a x address (λ (above, below). na (above, omega (arith, below, hx)))
