-- ===== src/Crypto/Toy.antt =====
-- Primitives that run: no cryptography, but every law that the theorems ask for. A cipher that
-- reverses, a key exchange that adds, signatures that are all alike.
use mathlib.Core.List.{reverse, reverse-append, reverse-reverse}
use shawn_core_libraries.Base.{
  ℕ, ◌+◌, Bool, true, false, ◌&&◌, Option, some, ◌≡◌, refl, sym, ap, ◌∙◌, [], ◌∷◌, ◌++◌, length,
  length-append, length-replicate, replicate, Bytes, ◌==◌, arith,
}
use shawn_core_libraries.Crypto.Primitives.{
  Primitives, HasDigestSize, HasMacSize, ComparesBytes, IsStreamCipher, IsKeyExchange, IsSignature,
}
use shawn_core_libraries.Crypto.Wrappers.{ml_dsa_signature_bytes}
use shawn_core_libraries.Crypto.Session.Mutual.{AlwaysSigns, AlwaysKeys}
use mathlib.Core.Option.{some-injective}
use native.Mathlib.Nat.{add_comm}

unfoldable pub same : Bytes → Bytes → Bool
same [] [] = true
same [] (b ∷ bs) = false
same (a ∷ as') [] = false
same (a ∷ as') (b ∷ bs) = a == b && same as' bs

abbrev pub total : Bytes → ℕ
total [] = 0
total (b ∷ bs) = b + total bs

unfoldable pub seal : Bytes
seal = replicate ml_dsa_signature_bytes 7

abbrev pub toy : Primitives
toy = record {
  chacha20 = λ key nonce. some (λ text. some (reverse text));
  hmac_sha384 = λ key. some (λ message. total key ∷ total message ∷ replicate 46 0);
  sha384 = λ message. total message ∷ length message ∷ replicate 46 0;
  hkdf_sha384 = λ salt ikm info len. some (replicate len (total salt + (total ikm + total info)));
  hkdf_from_prk = λ prk. some (λ info len. some (replicate len (total prk + total info)));
  ct_eq = same;
  ml_kem_from_seed = λ seed. seed;
  ml_kem_encapsulation_key = λ dk. dk;
  ml_kem_encapsulate = λ ek m. (m, ek ++ m);
  ml_kem_decapsulate = λ dk ct. dk ++ ct;
  ml_kem_to_bytes = λ ek. ek;
  ml_kem_key_of = λ encoded. some encoded;
  x25519_public = λ sk. sk;
  x25519_secret = λ seed. seed;
  x25519_shared = λ sk pk. (total sk + total pk) ∷ [];
  x25519_was_contributory = λ shared. true;
  ml_dsa_verifying_key = λ sk. sk;
  ml_dsa_encode = λ pk. pk;
  ml_dsa_sign = λ sk msg context. some seal;
  ml_dsa_decode_signature = λ signature. some signature;
  ml_dsa_verify = λ pk msg context signature. same signature seal;
  ml_dsa_from_seed = λ seed. seed;
  ml_dsa_sign_plain = λ sk msg. seal;
  ml_dsa_verify_plain = λ pk msg signature. same signature seal;
  ml_dsa_decode = λ encoded. encoded;
}

pub length-seal : length seal ≡ ml_dsa_signature_bytes
unfolding seal
length-seal = length-replicate {A = ℕ} ml_dsa_signature_bytes 7

pub same_refl : (a : Bytes) → same a a ≡ true
unfolding same
same_refl [] = refl
same_refl (a ∷ as') = ground (arith, same_refl as')

same_eq : (a b : Bytes) → same a b ≡ true → a ≡ b
unfolding same
same_eq [] [] h = refl
same_eq [] (b ∷ bs) h = absurd (ground arith)
same_eq (a ∷ as') [] h = absurd (ground arith)
same_eq (a ∷ as') (b ∷ bs) h = ground (arith, same_eq as' bs)

pub toy-ComparesBytes : ComparesBytes toy
toy-ComparesBytes a b = (same_eq a b, λ e. ap (same a) (sym e) ∙ same_refl a)

length-reverse : (xs : Bytes) → length (reverse xs) ≡ length xs
length-reverse [] = refl
length-reverse (x ∷ xs) =
    ap length (reverse-append (x ∷ []) xs)
    ∙ omega (arith, length-append (reverse xs) (x ∷ []), length-reverse xs)

reversed :
    {apply : Bytes → Option Bytes} {data_out : Bytes} (key nonce data_in : Bytes)
    → toy.chacha20 key nonce ≡ some apply
    → apply data_in ≡ some data_out
    → ((text : Bytes) → apply text ≡ some (reverse text)) × (data_out ≡ reverse data_in)
reversed {apply = apply} key nonce data_in built applied =
    let runs : (text : Bytes) → apply text ≡ some (reverse text) =
      λ text. ap (λ f. f text) (sym (some-injective _ _ built)) in
    (runs, sym (some-injective _ _ (sym (runs data_in) ∙ applied)))

pub toy-IsStreamCipher : IsStreamCipher toy
toy-IsStreamCipher = record {
  length_kept = λ key nonce data_in built applied.
      ap length (reversed key nonce data_in built applied).1 ∙ length-reverse data_in;
  involution = λ key nonce data_in {data_out = data_out} built applied.
      (reversed key nonce data_in built applied).0 data_out
      ∙ ap some (ap reverse (reversed key nonce data_in built applied).1 ∙ reverse-reverse data_in);
}

pub toy-IsKeyExchange : IsKeyExchange toy
toy-IsKeyExchange = record {
  kem_agrees = λ dk m. refl;
  dh_agrees = λ a b. ap (λ n. n ∷ []) (add_comm (total a) (total b));
  secret_kept = λ seed. refl;
}

pub toy-IsSignature : IsSignature toy
toy-IsSignature = record {
  signed_verifies = λ sk msg context signed.
      (refl, ap (λ s. same s seal) (sym (some-injective _ _ signed)) ∙ same_refl seal);
}

pub toy-AlwaysSigns : (sk : Bytes) → AlwaysSigns toy sk
toy-AlwaysSigns sk msg context = (seal, refl, length-seal)

pub toy-AlwaysKeys : AlwaysKeys toy
toy-AlwaysKeys key = ((λ message. total key ∷ total message ∷ replicate 46 0), refl)

pub toy-HasDigestSize : HasDigestSize toy
toy-HasDigestSize message = refl

pub toy-HasMacSize : HasMacSize toy
toy-HasMacSize key message mac keyed = ap (λ f. length (f message)) (sym (some-injective _ _ keyed))
