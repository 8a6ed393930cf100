-- ===== src/Crypto/Ffi/Ranges.antt =====
-- What the pointer checks of ffi.rs say of the addresses.
use shawn_core_libraries.Base.{
  ℕ, ◌+◌, ◌^◌, ◌≤◌, ◌<◌, ◌≡◌, true, false, ◌||◌, ◌↔◌, inl, inr, List, [], ◌∷◌, Bool-cases, max,
  arith,
}
use shawn_core_libraries.Crypto.Ffi.{
  ranges_overlap, Region, overlaps_later, writable_regions_overlap,
}

-- An address of the range of `len` bytes from `ptr` on.
abbrev pub InRange : (ptr len address : ℕ) → Type 0
InRange ptr len address = (ptr ≤ address) × (address < ptr + len)

-- Two ranges that share no address.
abbrev pub Disjoint : (first first_len second second_len : ℕ) → Type 0
Disjoint first first_len second second_len =
    (address : ℕ) → ¬ (InRange first first_len address × InRange second second_len address)

pub Disjoint-sym :
    (first first_len second second_len : ℕ)
    → Disjoint first first_len second second_len
    → Disjoint second second_len first first_len
Disjoint-sym first first_len second second_len apart address (inside, also) =
    apart address (also, inside)

-- For ranges that end below 2^64: `ranges_overlap` answers `false` exactly if they share no
-- address.
pub ranges_overlap_exact :
    (first first_len second second_len : ℕ)
    → first + first_len < 2 ^ 64
    → second + second_len < 2 ^ 64
    → (ranges_overlap first first_len second second_len ≡ false)
      ↔ Disjoint first first_len second second_len
unfolding ranges_overlap
ranges_overlap_exact first first_len second second_len h k = (
  λ apart address (inside, also). ground arith,
  λ apart. elim (Bool-cases (ranges_overlap first first_len second second_len)) [
    | inl overlap ↦ absurd (apart (max first second) (ground arith))
    | inr apart_already ↦ apart_already
  ],
)

-- Whatever the ranges: if `ranges_overlap` answers `false`, they share no address.
pub ranges_overlap-Disjoint :
    (first first_len second second_len : ℕ)
    → ranges_overlap first first_len second second_len ≡ false
    → Disjoint first first_len second second_len
unfolding ranges_overlap
ranges_overlap-Disjoint first first_len second second_len h address (inside, also) = ground arith

-- Whether two regions share an address although one of them may be written.
abbrev pub Clash : Region → Region → Type 0
Clash r s =
    (r.writable || s.writable ≡ true)
    × ((address : ℕ) × InRange r.address r.len address × InRange s.address s.len address)

-- No region clashes with one behind it.
abbrev pub NoneWith : Region → List Region → Type 0
NoneWith r [] = Unit {0}
NoneWith r (s ∷ rest) = ¬ Clash r s × NoneWith r rest

abbrev NoClash : List Region → Type 0
NoClash [] = Unit {0}
NoClash (r ∷ rest) = NoneWith r rest × NoClash rest

overlaps_later-NoneWith :
    (r : Region) (rest : List Region) → overlaps_later r rest ≡ false → NoneWith r rest
overlaps_later-NoneWith r [] h = tt
overlaps_later-NoneWith r (s ∷ rest) h = (
  (λ (may_write, (address, inside, also)).
      ranges_overlap-Disjoint r.address r.len s.address s.len (ground arith) address
        (inside, also)),
  overlaps_later-NoneWith r rest (ground arith),
)

-- If `writable_regions_overlap` answers `false`, no two of the regions share an address unless both
-- are only read.
writable_regions_overlap-NoClash :
    (regions : List Region) → writable_regions_overlap regions ≡ false → NoClash regions
unfolding writable_regions_overlap
writable_regions_overlap-NoClash [] h = tt
writable_regions_overlap-NoClash (r ∷ rest) h = (
  overlaps_later-NoneWith r rest (ground arith),
  writable_regions_overlap-NoClash rest (ground arith),
)
