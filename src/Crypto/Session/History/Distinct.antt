-- ===== src/Crypto/Session/History/Distinct.antt =====
-- The nonces and the accepted sequence numbers of a history of packet calls.
use mathlib.Core.Path.{subst}
use mathlib.Core.List.{Mem, Nodup, Nodup-cons, mem-cons, not-mem-nil, Pairwise}
use mathlib.Core.HLevel.{⊥_prop}
use mathlib.Core.Logic.Or
use shawn_core_libraries.Base.{
  ℕ, ◌+◌, ◌-◌, ◌^◌, ◌≤◌, ◌<◌, true, false, ◌≡◌, refl, ap, ◌∙◌, sym, ◌⊎◌, List, [], ◌∷◌, arith,
}
use shawn_core_libraries.Base.Bits.{bit-zero}
use shawn_core_libraries.Crypto.Primitives.{Primitives}
use shawn_core_libraries.Crypto.Session.State.{SessionManager}
use shawn_core_libraries.Crypto.Session.Window.{u64_max, nonce_of, sequence_of, commit_sequence}
use shawn_core_libraries.Crypto.Session.Replay.{
  Seen, mark, Tracks, check_sequence_exact, commit_sequence-Tracks,
}
use shawn_core_libraries.Crypto.Session.Traffic.{sequence_of-nonce_of}
use shawn_core_libraries.Crypto.Session.History.{
  Call, Event, used, accepted, refused, step, events, nonces, sequences,
}
use shawn_core_libraries.Crypto.Session.History.Moves.{
  Moved, sent, took, stayed, tx_counter-commit_sequence, step-Moved,
}

-- The nonces are those of 64-bit counters from `lo` on, in strictly increasing order.
abbrev Counting : ℕ → List Event → Type 0
Counting lo [] = Unit
Counting lo (used n ∷ es) =
    (c : ℕ) × (lo ≤ c) × (c < u64_max) × (n ≡ nonce_of c) × Counting (c + 1) es
Counting lo (accepted q ∷ es) = Counting lo es
Counting lo (refused ∷ es) = Counting lo es

-- Each accepted number is new to the set when it is accepted.
abbrev Unseen : Seen → List Event → Type 0
Unseen seen [] = Unit
Unseen seen (used n ∷ es) = Unseen seen es
Unseen seen (accepted q ∷ es) = (seen q ≡ false) × Unseen (mark q seen) es
Unseen seen (refused ∷ es) = Unseen seen es

nonce_of-injective : (a b : ℕ) → a < 2 ^ 64 → b < 2 ^ 64 → nonce_of a ≡ nonce_of b → a ≡ b
nonce_of-injective a b ha hb e =
    sym (sequence_of-nonce_of a ha) ∙ ap sequence_of e ∙ sequence_of-nonce_of b hb

Counting-not_mem :
    (c lo : ℕ) (es : List Event)
    → c < u64_max
    → c < lo
    → Counting lo es
    → ¬ Mem (nonce_of c) (nonces es)
unfolding nonces
Counting-not_mem c lo [] hc h u m = not-mem-nil m
Counting-not_mem c lo (used n ∷ es) hc h (d, le, hd, e, rest) m =
    Or.elim ⊥_prop (mem-cons.0 m)
      (λ same.
        absurd (omega (arith, nonce_of-injective c d (omega arith) (omega arith) (same ∙ e))))
      (Counting-not_mem c (d + 1) es hc (omega arith) rest)
Counting-not_mem c lo (accepted q ∷ es) hc h u m = Counting-not_mem c lo es hc h u m
Counting-not_mem c lo (refused ∷ es) hc h u m = Counting-not_mem c lo es hc h u m

Counting-Nodup : (lo : ℕ) (es : List Event) → Counting lo es → Nodup (nonces es)
unfolding nonces
Counting-Nodup lo [] u = Pairwise.nil
Counting-Nodup lo (used n ∷ es) (c, le, hc, e, rest) = Nodup-cons.1 (
  (λ m. Counting-not_mem c (c + 1) es hc (omega arith) rest (rw e at m)),
  Counting-Nodup (c + 1) es rest,
)
Counting-Nodup lo (accepted q ∷ es) u = Counting-Nodup lo es u
Counting-Nodup lo (refused ∷ es) u = Counting-Nodup lo es u

Unseen-not_mem :
    (a : ℕ) (seen : Seen) (es : List Event)
    → seen a ≡ true
    → Unseen seen es
    → ¬ Mem a (sequences es)
unfolding sequences
Unseen-not_mem a seen [] h u m = not-mem-nil m
Unseen-not_mem a seen (used n ∷ es) h u m = Unseen-not_mem a seen es h u m
Unseen-not_mem a seen (accepted q ∷ es) h (fresh, u) m =
    Or.elim ⊥_prop (mem-cons.0 m) (λ same. cc (ap seen same))
      (Unseen-not_mem a (mark q seen) es (ground arith) u)
Unseen-not_mem a seen (refused ∷ es) h u m = Unseen-not_mem a seen es h u m

Unseen-Nodup : (seen : Seen) (es : List Event) → Unseen seen es → Nodup (sequences es)
unfolding sequences
Unseen-Nodup seen [] u = Pairwise.nil
Unseen-Nodup seen (used n ∷ es) u = Unseen-Nodup seen es u
Unseen-Nodup seen (accepted q ∷ es) (fresh, u) =
    Nodup-cons.1
      (Unseen-not_mem q (mark q seen) es (ground arith) u, Unseen-Nodup (mark q seen) es u)
Unseen-Nodup seen (refused ∷ es) u = Unseen-Nodup seen es u

module _ (p : Primitives) where
  events-Counting :
      (s : SessionManager) (ks : List Call)
      → s.tx_counter ≤ u64_max
      → Counting s.tx_counter (events p s ks)
  unfolding events
  events-Counting s [] h = tt
  events-Counting s (k ∷ ks) h = go (step-Moved p s k h) (events-Counting (step p s k).0 ks)
    where
      go :
          {s' : SessionManager} {e : Event}
          → Moved s s' e
          → (s'.tx_counter ≤ u64_max → Counting s'.tx_counter (events p s' ks))
          → Counting s.tx_counter (e ∷ events p s' ks)
      go (sent lt) ih = (s.tx_counter, omega arith, lt, refl, ih (omega arith))
      go (took q fresh) ih =
          subst (λ c. Counting c (events p (commit_sequence s q) ks))
            (tx_counter-commit_sequence s q) (ih (rw (tx_counter-commit_sequence s q) h))
      go stayed ih = ih h

  events-Unseen :
      (s : SessionManager) (seen : Seen) (ks : List Call)
      → s.tx_counter ≤ u64_max
      → Tracks s seen
      → Unseen seen (events p s ks)
  unfolding events
  events-Unseen s seen [] h t = tt
  events-Unseen s seen (k ∷ ks) h t =
      go (step-Moved p s k h) (λ seen' h' t'. events-Unseen (step p s k).0 seen' ks h' t')
    where
      go :
          {s' : SessionManager} {e : Event}
          → Moved s s' e
          → ((seen' : Seen)
              → s'.tx_counter ≤ u64_max
              → Tracks s' seen'
              → Unseen seen' (events p s' ks))
          → Unseen seen (e ∷ events p s' ks)
      go (sent lt) ih = ih seen (omega arith) (record { top = t.top; recent = t.recent })
      go (took q fresh) ih = (
        new_number,
        ih (mark q seen) (rw (tx_counter-commit_sequence s q) h)
            (commit_sequence-Tracks s seen q t admitted),
      )
        where
          admitted : (s.rx_counter < q) ⊎ (s.rx_counter - q < 64)
          admitted = ground (arith, (check_sequence_exact s seen q t).0 fresh)

          new_number : seen q ≡ false
          new_number = ground (arith, (check_sequence_exact s seen q t).0 fresh, t.top q)
      go stayed ih = ih seen h t

  -- No transmit nonce is ever handed out twice, whatever packets and raw nonces the host asks for
  -- and in whatever order, from a session whose counter is a 64-bit word.
  pub nonces_distinct :
      (s : SessionManager) (ks : List Call)
      → s.tx_counter ≤ u64_max
      → Nodup (nonces (events p s ks))
  nonces_distinct s ks h = Counting-Nodup s.tx_counter (events p s ks) (events-Counting s ks h)

  -- No inbound sequence number is accepted twice, whatever packets arrive, in whatever order and
  -- whatever the primitives answer, from a session whose window is empty and whose transmit
  -- counter is a 64-bit word.
  pub no_replay :
      (s : SessionManager) (ks : List Call)
      → s.tx_counter ≤ u64_max
      → s.rx_window ≡ 0
      → Nodup (sequences (events p s ks))
  no_replay s ks h window =
      Unseen-Nodup (λ _. false) (events p s ks) (events-Unseen s (λ _. false) ks h none_yet)
    where
      none_yet : Tracks s (λ _. false)
      none_yet = record { top = λ q above. refl; recent = λ d small within. rw window (bit-zero d) }
