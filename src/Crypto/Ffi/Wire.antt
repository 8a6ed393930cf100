-- ===== src/Crypto/Ffi/Wire.antt =====
-- The wire codecs of the C interface (ffi.rs), macro wire_codec: an object to bytes and bytes to an
-- object, for each type that crosses a link.
use shawn_core_libraries.Base.{
  ℕ, ◌%◌, ◌≡◌, ◌≢◌, refl, ap, ◌∙◌, false, not, ◌||◌, some, length, ok, err, if◌then◌else◌, ◌==◌,
  Bytes, arith,
}
use shawn_core_libraries.Crypto.Error.{Outcome}
use shawn_core_libraries.Crypto.Primitives.{Primitives}
use shawn_core_libraries.Crypto.Wrappers.{
  ml_kem_publickey_bytes, ml_dsa_publickey_bytes, ml_dsa_signature_bytes, public_key_1024_to_bytes,
  public_key_1024_from_bytes, public_key_87_to_bytes, public_key_87_from_bytes,
}
use shawn_core_libraries.Crypto.Ffi.{
  ShawncoreCryptoErr, success, invalid_state, invalid_length, from_error, Layout, Host, Kind,
  public_key_1024, ciphertext_1024, x25519_public, public_key_87, signature_87, read, write,
  set_object, is_null, ptr_is_aligned, ranges_overlap,
}
use shawn_core_libraries.Crypto.Ffi.Memory.{read-write}

-- One line of `wire_codec!`: the type, the length of its encoding, and the two conversions.
pub record Codec : Type 0 where
  pub kind : Kind
  pub len : ℕ
  pub encode : Bytes → Bytes
  pub decode : Bytes → Outcome Bytes

-- Ciphertexts, X25519 keys and signatures are their bytes.
abbrev plain : Kind → ℕ → Codec
plain kind len = record { kind = kind; len = len; encode = λ v. v; decode = λ bytes. ok bytes }

abbrev pub ciphertext_codec : Codec
ciphertext_codec = plain ciphertext_1024 1568

abbrev pub x25519_public_codec : Codec
x25519_public_codec = plain x25519_public 32

abbrev pub signature_codec : Codec
signature_codec = plain signature_87 ml_dsa_signature_bytes

abbrev pub public_key_1024_codec : Primitives → Codec
public_key_1024_codec p = record {
  kind = public_key_1024;
  len = ml_kem_publickey_bytes;
  encode = public_key_1024_to_bytes p;
  decode = public_key_1024_from_bytes p;
}

abbrev pub public_key_87_codec : Primitives → Codec
public_key_87_codec p = record {
  kind = public_key_87;
  len = ml_dsa_publickey_bytes;
  encode = public_key_87_to_bytes p;
  decode = public_key_87_from_bytes p;
}

module _ (layout : Layout) (codec : Codec) where
  unfoldable pub to_bytes : Host → (value out out_len : ℕ) → ShawncoreCryptoErr × Host
  to_bytes host value out out_len =
      if is_null value || is_null out
      then (invalid_state, host)
      else if not (ptr_is_aligned (layout.align_of codec.kind) value)
      then (invalid_state, host)
      else if not (out_len == codec.len)
      then (invalid_length, host)
      else if ranges_overlap value (layout.size_of codec.kind) out out_len
      then (invalid_length, host)
      else (
        success,
        record host { memory = write host.memory out (codec.encode (host.objects value)) },
      )

  unfoldable pub from_bytes : Host → (bytes len out : ℕ) → ShawncoreCryptoErr × Host
  from_bytes host bytes len out =
      if is_null bytes || is_null out
      then (invalid_state, host)
      else if not (ptr_is_aligned (layout.align_of codec.kind) out)
      then (invalid_state, host)
      else if not (len == codec.len)
      then (invalid_length, host)
      else if ranges_overlap bytes len out (layout.size_of codec.kind)
      then (invalid_length, host)
      else elim (codec.decode (read host.memory bytes codec.len)) [
        | ok value ↦ (success, record host { objects = set_object host.objects out value })
        | err e ↦ (from_error e, host)
      ]

  to_bytes_ok :
      (host : Host) (value out out_len : ℕ)
      → (to_bytes host value out out_len).0 ≡ success
      → (out_len ≡ codec.len)
        × ((to_bytes host value out out_len).1
            ≡ record host { memory = write host.memory out (codec.encode (host.objects value)) })
  unfolding to_bytes
  to_bytes_ok host value out out_len h = ground arith

  -- Pointers that `from_bytes` accepts.
  pub record Readable (bytes out : ℕ) : Type 0 where
    pub bytes_there : bytes ≢ 0
    pub out_there : out ≢ 0
    pub aligned : out % layout.align_of codec.kind ≡ 0
    pub apart : ranges_overlap bytes codec.len out (layout.size_of codec.kind) ≡ false

  from_bytes_ok :
      (host : Host) (bytes out : ℕ) {value : Bytes}
      → codec.decode (read host.memory bytes codec.len) ≡ ok value
      → Readable bytes out
      → from_bytes host bytes codec.len out
        ≡ (success, record host { objects = set_object host.objects out value })
  unfolding from_bytes
  from_bytes_ok host bytes out decoded r =
      ground (arith, r.bytes_there, r.out_there, r.aligned, r.apart)

  carried_over :
      (host other : Host) (value out out_len bytes target : ℕ)
      → length (codec.encode (host.objects value)) ≡ codec.len
      → codec.decode (codec.encode (host.objects value)) ≡ ok (host.objects value)
      → (to_bytes host value out out_len).0 ≡ success
      → read other.memory bytes codec.len
        ≡ read (to_bytes host value out out_len).1.memory out codec.len
      → Readable bytes target
      → from_bytes other bytes codec.len target
        ≡ (success, record other { objects = set_object other.objects target (host.objects value) })
  carried_over host other value out out_len bytes target size decoded written carried readable =
      let (_, there) = to_bytes_ok host value out out_len written in
      let sent : read other.memory bytes codec.len ≡ codec.encode (host.objects value) =
        carried
        ∙ ap {A = Host} (λ h. read h.memory out codec.len) there
        ∙ read-write host.memory out codec.len (codec.encode (host.objects value)) size in
      from_bytes_ok other bytes target (ap codec.decode sent ∙ decoded) readable

-- The types that have wire codecs.
pub data WireType : Type 0 where
  ml_kem_public_key ml_kem_ciphertext x25519_public_key : WireType
  ml_dsa_public_key ml_dsa_signature : WireType

module _ (p : Primitives) where
  abbrev pub codec_of : WireType → Codec
  codec_of ml_kem_public_key = public_key_1024_codec p
  codec_of ml_kem_ciphertext = ciphertext_codec
  codec_of x25519_public_key = x25519_public_codec
  codec_of ml_dsa_public_key = public_key_87_codec p
  codec_of ml_dsa_signature = signature_codec

  -- What the crates document of an object of the type: the length of its encoding, and for the keys
  -- of the ML-KEM and ML-DSA crates that the crate decodes what it encoded.
  abbrev pub IsObject : WireType → Bytes → Type 0
  IsObject ml_kem_public_key v =
      (length (p.ml_kem_to_bytes v) ≡ 1568) × (p.ml_kem_key_of (p.ml_kem_to_bytes v) ≡ some v)
  IsObject ml_kem_ciphertext v = length v ≡ 1568
  IsObject x25519_public_key v = length v ≡ 32
  IsObject ml_dsa_public_key v =
      (length (p.ml_dsa_encode v) ≡ 2592) × (p.ml_dsa_decode (p.ml_dsa_encode v) ≡ v)
  IsObject ml_dsa_signature v = length v ≡ 4627

  codec_length :
      (type : WireType) (v : Bytes)
      → IsObject type v
      → length ((codec_of type).encode v) ≡ (codec_of type).len
  unfolding public_key_1024_to_bytes public_key_87_to_bytes
  codec_length ml_kem_public_key v (size, _) = size
  codec_length ml_kem_ciphertext v size = size
  codec_length x25519_public_key v size = size
  codec_length ml_dsa_public_key v (size, _) = size
  codec_length ml_dsa_signature v size = size

  codec_inverse :
      (type : WireType) (v : Bytes)
      → IsObject type v
      → (codec_of type).decode ((codec_of type).encode v) ≡ ok v
  unfolding public_key_1024_to_bytes public_key_87_to_bytes public_key_1024_from_bytes
      public_key_87_from_bytes
  codec_inverse ml_kem_public_key v (size, inverse) = ground (arith, size, inverse)
  codec_inverse ml_kem_ciphertext v size = refl
  codec_inverse x25519_public_key v size = refl
  codec_inverse ml_dsa_public_key v (size, inverse) = rw (size, inverse) refl
  codec_inverse ml_dsa_signature v size = refl

  -- For each type that has a wire codec, and an object of it for which the crate's encoding keeps its
  -- documented length and is decoded by the crate: if the call that encodes it answers `Success`, and
  -- another host (or the same) has those bytes at some address and names an aligned place apart from
  -- them, the call that decodes them answers `Success` and stores that object there.
  pub from_bytes-to_bytes :
      (layout : Layout) (type : WireType) (host other : Host) (value out out_len bytes target : ℕ)
      → IsObject type (host.objects value)
      → (to_bytes layout (codec_of type) host value out out_len).0 ≡ success
      → read other.memory bytes (codec_of type).len
        ≡ read
            (to_bytes layout (codec_of type) host value out out_len).1.memory
            out
            (codec_of type).len
      → Readable layout (codec_of type) bytes target
      → from_bytes layout (codec_of type) other bytes (codec_of type).len target
        ≡ (success, record other { objects = set_object other.objects target (host.objects value) })
  from_bytes-to_bytes layout type host other value out out_len bytes target object written carried
        readable =
      carried_over layout (codec_of type) host other value out out_len bytes target
        (codec_length type (host.objects value) object)
        (codec_inverse type (host.objects value) object) written carried readable
