-- ===== src/Crypto/Session/Agreement.antt =====
-- The hybrid handshake of session_manager.rs, both sides of it.
use shawn_core_libraries.Base.{
  true, false, Option, none, some, ok, take, drop, Bytes, ◌≡◌, refl, arith, ap, ap₂, sym,
  Result-cases, inl, inr, ◌∙◌,
}
use shawn_core_libraries.Base.Encoding.{all_equal}
use shawn_core_libraries.Crypto.Primitives.{Primitives, IsKeyExchange}
use shawn_core_libraries.Crypto.Wrappers.{
  ml_kem_keygen, ml_kem_encapsulate, ml_kem_decapsulate, x25519_keygen, x25519_diffie_hellman,
}
use shawn_core_libraries.Crypto.Kdf.{derive_hybrid_key}
use shawn_core_libraries.Crypto.Session.State.{SessionManager, zeroize_session}
use shawn_core_libraries.Crypto.Session.Handshake.{
  initiate_handshake, finalize_handshake, encapsulate_for_peer, hybrid_secrets, encapsulated,
  install, inner_key, outer_key,
}

-- The two ends of one channel: each side's transmit key is the other's receive key, both are
-- established, unrestricted, and have sent and received nothing.
pub record Paired (a b : SessionManager) : Type 0 where
  pub forth : a.tx_key ≡ b.rx_key
  pub back : a.rx_key ≡ b.tx_key
  pub up : (a.is_established ≡ true) × (b.is_established ≡ true)
  pub open_now : (a.pending_auth ≡ none) × (b.pending_auth ≡ none)
  pub unused_tx : (a.tx_counter ≡ 0) × (b.tx_counter ≡ 0)
  pub unused_rx : (a.rx_counter ≡ 0) × (b.rx_counter ≡ 0)
  pub empty_window : (a.rx_window ≡ 0) × (b.rx_window ≡ 0)

pub install-Paired : (a b : SessionManager) (x y : Bytes) → Paired (install a x y) (install b y x)
unfolding install zeroize_session
install-Paired a b x y = ground arith

module _ (p : Primitives) where
  -- The key-generating side after `initiate_handshake` decapsulates to the secrets that the
  -- encapsulating side derived from.
  hybrid_secrets-encapsulated :
      (k_seed x_seed e_entropy salt info : Bytes) {hybrid ct pk : Bytes} {c : Option Bytes}
      → IsKeyExchange p
      → all_equal 0 pk ≡ false
      → encapsulated p
          (p.ml_kem_encapsulation_key (p.ml_kem_from_seed k_seed))
          (p.x25519_public x_seed)
          e_entropy
          salt
          info
          false
        ≡ ok (hybrid, c, ct, pk)
      → hybrid_secrets p (p.ml_kem_from_seed k_seed) x_seed pk ct salt info ≡ ok hybrid
  unfolding hybrid_secrets encapsulated ml_kem_encapsulate ml_kem_decapsulate x25519_keygen
      x25519_diffie_hellman derive_hybrid_key
  hybrid_secrets-encapsulated k_seed x_seed e_entropy salt info kx nonzero h = ground (
    arith,
    kx.kem_agrees (p.ml_kem_from_seed k_seed) (take 32 e_entropy),
    kx.dh_agrees x_seed (take 32 (drop 32 e_entropy)),
    kx.secret_kept (take 32 (drop 32 e_entropy)),
  )

  -- What a successful first message leaves behind, and what it sends.
  pub initiate_handshake_ok :
      (k : SessionManager) (entropy : Bytes) {k' : SessionManager} {mk xk : Bytes}
      → initiate_handshake p k entropy ≡ (ok (mk, xk), k')
      → (k'.ml_kem_dk ≡ some (p.ml_kem_from_seed (take 64 entropy)))
        × (k'.x25519_sk ≡ some (p.x25519_secret (take 32 (drop 64 entropy))))
        × (mk ≡ p.ml_kem_encapsulation_key (p.ml_kem_from_seed (take 64 entropy)))
        × (xk ≡ p.x25519_public (take 32 (drop 64 entropy)))
  unfolding initiate_handshake ml_kem_keygen x25519_keygen
  initiate_handshake_ok k entropy h = ground arith

  -- A successful encapsulation installs the keys of what it derived.
  encapsulate_for_peer_ok :
      (e : SessionManager) (mk xk entropy salt info ct_buffer pk_buffer : Bytes)
      {e' : SessionManager} {ct pk : Bytes}
      → encapsulate_for_peer p e mk xk entropy salt info ct_buffer pk_buffer ≡ (ok tt, e', ct, pk)
      → (hybrid : Bytes) × (c : Option Bytes) × (encapsulated p mk xk entropy salt info false
          ≡ ok (hybrid, c, ct, pk))
        × (e' ≡ install e (inner_key hybrid) (outer_key hybrid))
  unfolding encapsulate_for_peer
  encapsulate_for_peer_ok e mk xk entropy salt info ct_buffer pk_buffer h =
      elim (Result-cases (encapsulated p mk xk entropy salt info false)) [
        | inl ((hybrid, c, ct, pk), done) ↦ (hybrid, c, ground arith, ground arith)
        | inr (e, failed) ↦ absurd (ground arith)
      ]

  -- With both secret keys in place, finalizing installs the keys of what it derives.
  finalize_handshake_ok :
      (k : SessionManager) (pk ct salt info : Bytes) {dk sk hybrid : Bytes}
      → k.ml_kem_dk ≡ some dk
      → k.x25519_sk ≡ some sk
      → hybrid_secrets p dk sk pk ct salt info ≡ ok hybrid
      → finalize_handshake p k pk ct salt info
        ≡ (ok tt, install k (outer_key hybrid) (inner_key hybrid))
  unfolding finalize_handshake
  finalize_handshake_ok k pk ct salt info hd hs h = ground arith

  -- A whole handshake. One side initiates, the other encapsulates for the two public keys, and the
  -- first finalizes with what the other sent, under the same salt and info. With key exchanges
  -- that agree: if the first two calls succeed and the public key that is sent back is not all
  -- zero, the third succeeds, and the two sessions are the two ends of one fresh channel.
  pub handshake_agrees :
      (k e : SessionManager) (k_entropy e_entropy salt info ct_buffer pk_buffer : Bytes)
      {k' e' : SessionManager} {mk xk ct pk : Bytes}
      → IsKeyExchange p
      → initiate_handshake p k k_entropy ≡ (ok (mk, xk), k')
      → encapsulate_for_peer p e mk xk e_entropy salt info ct_buffer pk_buffer ≡ (ok tt, e', ct, pk)
      → all_equal 0 pk ≡ false
      → let (r, k'') = finalize_handshake p k' pk ct salt info in (r ≡ ok tt) × Paired k'' e'
  handshake_agrees k e k_entropy e_entropy salt info ct_buffer pk_buffer {k'} {e'} {mk} {xk} {ct}
        {pk} kx hk he nonzero =
      let (dk, sk, m, x) = initiate_handshake_ok k k_entropy hk in
      let (hybrid, c, derived, installed) =
        encapsulate_for_peer_ok e mk xk e_entropy salt info ct_buffer pk_buffer he in
      let agreed =
        hybrid_secrets-encapsulated (take 64 k_entropy) (take 32 (drop 64 k_entropy)) e_entropy salt
          info kx nonzero
          (ap₂ (λ a b. encapsulated p a b e_entropy salt info false) (sym m) (sym x) ∙ derived) in
      rw
        (
          finalize_handshake_ok k' pk ct salt info dk (sk ∙ ap some (kx.secret_kept _)) agreed,
          installed,
        )
        (refl, install-Paired k' e (outer_key hybrid) (inner_key hybrid))
