-- ===== src/Crypto/Ffi.antt =====
-- The C interface of shawncore-pq-crypto (ffi.rs and ffi_error.rs): what its functions share. A
-- pointer is an address, 0 for null; the host's memory is a function from addresses to bytes. The
-- session managers and the key, ciphertext and signature objects, which are opaque to C, are kept
-- by address beside it: how the compiler lays an object out is not modelled, so that what the memory
-- has at the addresses of an object says nothing, and theorems on bytes leave those addresses out.
pub mod Memory
pub mod Ranges
pub mod Packets
pub mod Sealing
pub mod Opening
pub mod Delivery
pub mod Handshake
pub mod Authenticated
pub mod Aead
pub mod Keys
pub mod Wire
pub mod Failure
pub mod Outputs
pub mod Entropy
use shawn_core_libraries.Base.{
  ℕ, zero, suc, ◌+◌, ◌-◌, ◌*◌, ◌%◌, ◌^◌, Bool, true, false, not, ◌&&◌, ◌||◌, List, [], ◌∷◌, length,
  get_or, Result, ok, err, if◌then◌else◌, ltb, leb, ◌==◌, Bytes,
}
use shawn_core_libraries.Crypto.Error
use shawn_core_libraries.Crypto.Error.{CryptoError, Outcome}
use shawn_core_libraries.Crypto.Aead.{chacha20_max_bytes}
use shawn_core_libraries.Crypto.Session.State.{SessionManager}

pub data ShawncoreCryptoErr : Type 0 where
  success invalid_state invalid_length hkdf_error verification_failed : ShawncoreCryptoErr
  entropy_starvation entropy_busy key_confirmation_failed panic : ShawncoreCryptoErr

-- `impl From<CryptoError>`.
abbrev pub from_error : CryptoError → ShawncoreCryptoErr
from_error Error.invalid_state = invalid_state
from_error Error.invalid_length = invalid_length
from_error Error.hkdf_error = hkdf_error
from_error Error.verification_failed = verification_failed
from_error Error.entropy_starvation = entropy_starvation
from_error Error.entropy_busy = entropy_busy
from_error Error.key_confirmation_failed = key_confirmation_failed

-- The `match` at the end of the calls.
abbrev pub status : {A : Type 0} → Outcome A → ShawncoreCryptoErr
status (ok a) = success
status (err e) = from_error e

abbrev pub Memory : Type 0
Memory = ℕ → ℕ

-- The types of the objects that are opaque to C, `SessionManager` apart.
pub data Kind : Type 0 where
  public_key_1024 decaps_key_1024 shared_key_1024 ciphertext_1024 : Kind
  x25519_public x25519_secret x25519_shared_secret : Kind
  public_key_87 signing_key_87 signature_87 : Kind

-- `size_of` and `align_of`, as the compiler lays the types out.
pub record Layout : Type 0 where
  pub manager_size : ℕ
  pub manager_align : ℕ
  pub size_of : Kind → ℕ
  pub align_of : Kind → ℕ

pub record Host : Type 0 where
  pub memory : Memory
  pub managers : ℕ → SessionManager
  pub objects : ℕ → Bytes

-- The bytes of a slice, and writing a slice back.
unfoldable pub read : Memory → (ptr len : ℕ) → Bytes
read memory ptr zero = []
read memory ptr (suc len) = memory ptr ∷ read memory (ptr + 1) len

unfoldable pub write : Memory → (ptr : ℕ) → Bytes → Memory
write memory ptr bytes address =
    if leb ptr address && ltb address (ptr + length bytes)
    then get_or bytes (address - ptr) 0
    else memory address

abbrev pub set_manager : (ℕ → SessionManager) → ℕ → SessionManager → ℕ → SessionManager
set_manager managers ptr s address = if address == ptr then s else managers address

abbrev pub set_object : (ℕ → Bytes) → ℕ → Bytes → ℕ → Bytes
set_object objects ptr value address = if address == ptr then value else objects address

abbrev pub is_null : ℕ → Bool
is_null ptr = ptr == 0

abbrev pub ptr_is_aligned : (align ptr : ℕ) → Bool
ptr_is_aligned align ptr = ptr % align == 0

-- `isize::MAX`, and `u32::MAX`.
abbrev pub max_slice_len : ℕ
max_slice_len = 2 ^ 63 - 1

abbrev pub max_app_info_len : ℕ
max_app_info_len = 2 ^ 32 - 1

abbrev pub slice_len_valid : ℕ → Bool
slice_len_valid len = leb len max_slice_len

-- `checked_add` gives a value.
abbrev pub adds : ℕ → ℕ → Bool
adds a b = ltb (a + b) (2 ^ 64)

unfoldable pub range_ok : (ptr len : ℕ) → Bool
range_ok ptr len = slice_len_valid len && (len == 0 || adds ptr len)

unfoldable pub packet_len_valid : ℕ → Bool
packet_len_valid len = slice_len_valid len && leb len chacha20_max_bytes

unfoldable pub ranges_overlap : (first first_len second second_len : ℕ) → Bool
ranges_overlap first first_len second second_len =
    if first_len == 0 || second_len == 0
    then false
    else if not (adds first first_len)
    then true
    else if not (adds second second_len)
    then true
    else ltb first (second + second_len) && ltb second (first + first_len)

-- A chain of `||`.
abbrev pub any_of : List Bool → Bool
any_of [] = false
any_of (b ∷ bs) = b || any_of bs

-- `(ptr.is_null() && len > 0)`.
abbrev pub null_slice : (ptr len : ℕ) → Bool
null_slice ptr len = is_null ptr && ltb 0 len

-- One region of `writable_regions_overlap`.
pub record Region : Type 0 where
  pub address : ℕ
  pub len : ℕ
  pub writable : Bool

-- The inner loop, over the regions behind the first, and the outer loop.
abbrev pub overlaps_later : Region → List Region → Bool
overlaps_later r [] = false
overlaps_later r (s ∷ rest) =
    if (r.writable || s.writable)
      && (ltb 0 r.len && (ltb 0 s.len && ranges_overlap r.address r.len s.address s.len))
    then true
    else overlaps_later r rest

unfoldable pub writable_regions_overlap : List Region → Bool
writable_regions_overlap [] = false
writable_regions_overlap (r ∷ rest) =
    if overlaps_later r rest then true else writable_regions_overlap rest
