-- ===== src/Crypto/Ffi/Failure.antt =====
-- What a handshake call of ffi.rs that fails leaves behind.
use shawn_core_libraries.Base.{
  ℕ, ◌≡◌, ◌≢◌, ◌⊎◌, inl, inr, ap, ◌∙◌, Bool, true, false, if◌then◌else◌, none, some, err, take,
  Bytes, Result-cases, arith,
}
use shawn_core_libraries.Crypto.Error.{CryptoError}
use shawn_core_libraries.Crypto.Primitives.{Primitives}
use shawn_core_libraries.Crypto.Wrappers.{ml_kem_keygen}
use shawn_core_libraries.Crypto.Auth.{identity_fingerprint, handshake_binding}
use shawn_core_libraries.Crypto.Session.State.{SessionManager, zeroize_session}
use shawn_core_libraries.Crypto.Session.Handshake.{
  initiate_handshake, encapsulated, encapsulate_inner, encapsulate_for_peer, install,
}
use shawn_core_libraries.Crypto.Session.Authenticated.{
  encapsulate_authenticated, finalize_authenticated,
}
use shawn_core_libraries.Crypto.Session.Confirmation.{finalize_authenticated_error}
use shawn_core_libraries.Crypto.Ffi.{ShawncoreCryptoErr, success, Layout, Host, set_manager}
use shawn_core_libraries.Crypto.Ffi.Ranges.{InRange}

-- What a call that fails has done: no byte outside the manager object, no other object and no other
-- manager is changed, and the manager is as before or wiped.
pub record Failed (layout : Layout) (host : Host) (manager : ℕ) (host' : Host) : Type 0 where
  pub bytes :
      (address : ℕ)
      → ¬ InRange manager layout.manager_size address
      → host'.memory address ≡ host.memory address
  pub objects : host'.objects ≡ host.objects
  pub others : (other : ℕ) → other ≢ manager → host'.managers other ≡ host.managers other
  pub wiped :
      (host'.managers manager ≡ host.managers manager)
      ⊎ (host'.managers manager ≡ zeroize_session (host.managers manager))

-- The call answered `Success`, or it failed so.
pub data WritesOnSuccess (layout : Layout) (host : Host) (manager : ℕ)
    (r : ShawncoreCryptoErr × Host) : Type 0 where
  succeeds : r.0 ≡ success → WritesOnSuccess layout host manager r
  fails : Failed layout host manager r.1 → WritesOnSuccess layout host manager r

pub rejected :
    (layout : Layout) (host : Host) (manager : ℕ) {host' : Host}
    → host' ≡ host
    → Failed layout host manager host'
rejected layout host manager e = record {
  bytes = λ address outside. ap {A = Host} (λ h. h.memory address) e;
  objects = ap {A = Host} (λ h. h.objects) e;
  others = λ other apart. ap {A = Host} (λ h. h.managers other) e;
  wiped = inl (ap {A = Host} (λ h. h.managers manager) e);
}

-- The session that the failing operation returned is all that is stored.
pub stored :
    (layout : Layout) (host : Host) (manager : ℕ) (s : SessionManager) {host' : Host}
    → host' ≡ record host { managers = set_manager host.managers manager s }
    → (s ≡ host.managers manager) ⊎ (s ≡ zeroize_session (host.managers manager))
    → Failed layout host manager host'
stored layout host manager s e kept = record {
  bytes = λ address outside. ap {A = Host} (λ h. h.memory address) e;
  objects = ap {A = Host} (λ h. h.objects) e;
  others = λ other apart. ap {A = Host} (λ h. h.managers other) e ∙ ground arith;
  wiped =
      let at_manager = ap {A = Host} (λ h. h.managers manager) e ∙ ground arith in
      elim kept [ inl same ↦ inl (at_manager ∙ same) | inr gone ↦ inr (at_manager ∙ gone) ];
}

-- A call with four tests ahead of its work.
pub guarded :
    (P : ShawncoreCryptoErr × Host → Type 0) (a b c d : Bool) (w x y z : ShawncoreCryptoErr × Host)
    {r : ShawncoreCryptoErr × Host}
    → P w
    → P x
    → P y
    → P z
    → P r
    → P (if a then w else if b then x else if c then y else if d then z else r)
guarded P true b c d w x y z pw px py pz pr = pw
guarded P false true c d w x y z pw px py pz pr = px
guarded P false false true d w x y z pw px py pz pr = py
guarded P false false false true w x y z pw px py pz pr = pz
guarded P false false false false w x y z pw px py pz pr = pr

-- Where the operation succeeds, and where it fails.
pub after_success :
    (layout : Layout) (host : Host) (manager : ℕ) (r : ShawncoreCryptoErr × Host)
    → (r.0 ≡ success) ⊎ (r.1 ≡ host)
    → WritesOnSuccess layout host manager r
after_success layout host manager r (inl good) = succeeds good
after_success layout host manager r (inr same) = fails (rejected layout host manager same)

pub after_failure :
    (layout : Layout) (host : Host) (manager : ℕ) (s : SessionManager)
    (r : ShawncoreCryptoErr × Host)
    → (s ≡ host.managers manager) ⊎ (s ≡ zeroize_session (host.managers manager))
    → (r.1 ≡ host) ⊎ (r.1 ≡ record host { managers = set_manager host.managers manager s })
    → WritesOnSuccess layout host manager r
after_failure layout host manager s r kept (inl same) = fails (rejected layout host manager same)
after_failure layout host manager s r kept (inr e) = fails (stored layout host manager s e kept)

-- The sessions that failing operations return.
module _ (p : Primitives) (s : SessionManager) where
  pub initiate_handshake_error :
      (entropy : Bytes) {e : CryptoError}
      → (initiate_handshake p s entropy).0 ≡ err e
      → (initiate_handshake p s entropy).1 ≡ s
  unfolding initiate_handshake
  initiate_handshake_error entropy h = elim (Result-cases (ml_kem_keygen p (take 64 entropy))) [
    | inl ((pk, dk), made) ↦ ground arith
    | inr (e, failed) ↦ ground arith
  ]

  pub encapsulate_for_peer_error :
      (mk xk entropy salt info out_ct out_pk : Bytes) {e : CryptoError}
      → (encapsulate_for_peer p s mk xk entropy salt info out_ct out_pk).0 ≡ err e
      → (encapsulate_for_peer p s mk xk entropy salt info out_ct out_pk).1 ≡ s
  unfolding encapsulate_for_peer encapsulate_inner
  encapsulate_for_peer_error mk xk entropy salt info out_ct out_pk h =
      elim (Result-cases (encapsulated p mk xk entropy salt info false)) [
        | inl ((hybrid, material, ct, pk), made) ↦ ground arith
        | inr (e, failed) ↦ ground arith
      ]

  pub encapsulate_authenticated_error :
      (sk vk mk xk entropy salt info b1 b2 b3 b4 : Bytes) {e : CryptoError}
      → (encapsulate_authenticated p s sk vk mk xk entropy salt info b1 b2 b3 b4).0 ≡ err e
      → let s' = (encapsulate_authenticated p s sk vk mk xk entropy salt info b1 b2 b3 b4).1 in
        (s' ≡ s) ⊎ (s' ≡ zeroize_session s)
  unfolding encapsulate_authenticated encapsulate_inner install zeroize_session
  encapsulate_authenticated_error sk vk mk xk entropy salt info b1 b2 b3 b4 h =
      elim (Result-cases (
        handshake_binding p mk xk (identity_fingerprint p vk)
          (identity_fingerprint p (p.ml_dsa_verifying_key sk)) info)) [
            | inr (x, hb) ↦ ground arith
            | inl (binding, hb) ↦
                elim (Result-cases (encapsulated p mk xk entropy salt binding true)) [
                  | inr (x, hd) ↦ ground arith
                  | inl ((hybrid, none, ct, pk), hd) ↦ absurd (ground arith)
                  | inl ((hybrid, some material, ct, pk), hd) ↦ ground arith
                ]
          ]

  pub finalize_authenticated_failure :
      (sk vk xk ct signature tag salt info b1 b2 : Bytes) {e : CryptoError}
      → (finalize_authenticated p s sk vk xk ct signature tag salt info b1 b2).0 ≡ err e
      → let s' = (finalize_authenticated p s sk vk xk ct signature tag salt info b1 b2).1 in
        (s' ≡ s) ⊎ (s' ≡ zeroize_session s)
  finalize_authenticated_failure sk vk xk ct signature tag salt info b1 b2 h =
      let r = finalize_authenticated p s sk vk xk ct signature tag salt info b1 b2 in
      (finalize_authenticated_error p s sk vk xk ct signature tag salt info b1 b2
        (ap (λ x. (x, r.1, r.2, r.3)) h)).0
