-- ===== src/Rtos/Spinlock.antt =====
-- shawncore-rtos-sync/src/interrupt_spinlock.rs, and the same lock in
-- shawncore-pq-crypto/src/entropy_pool.rs: any number of threads, each on a core with interrupt
-- flags of its own, that take and drop the lock. A step is one atomic operation of one thread.
pub mod Exclusion
pub mod Flags
use shawn_core_libraries.Base.{ℕ, Bool, true, false, if◌then◌else◌, ◌==◌, ◌≡◌}

-- The host's interrupt operations: what `disable_and_save` returns for the flags of a core, what it
-- makes of them, and what `restore` makes of them.
pub record InterruptContext : Type 0 where
  pub saved : ℕ → ℕ
  pub disabled : ℕ → ℕ
  pub restore : (saved_flags flags : ℕ) → ℕ

-- What the host documents: restoring what was saved gives the flags back.
abbrev pub RestoresFlags : InterruptContext → Type 0
RestoresFlags c = (before now : ℕ) → c.restore (c.saved before) now ≡ before

-- Where a thread stands: outside; at the exchange of `lock`; in its inner loop; with a guard; in
-- `drop`, between the store and the restoring of the flags. The number is `saved_flags`.
pub data Place : Type 0 where
  outside : Place
  exchanging waiting holding dropping : ℕ → Place

pub record InterruptSafeSpinlock (T : Type 0) : Type 0 where
  pub locked : Bool
  pub contents : T
  pub places : ℕ → Place
  pub flags : ℕ → ℕ

-- `new`, among threads that are all outside.
abbrev pub new : {T : Type 0} → T → (flags : ℕ → ℕ) → InterruptSafeSpinlock T
new contents flags = record {
  locked = false;
  contents = contents;
  places = λ _. outside;
  flags = flags;
}

abbrev pub at {ℓ} : {A : Type ℓ} → (ℕ → A) → ℕ → A → ℕ → A
at f i v j = if j == i then v else f j

module _ {T : Type 0} (c : InterruptContext) where
  -- The steps of a thread `i`.
  pub data Step (l : InterruptSafeSpinlock T) : InterruptSafeSpinlock T → Type 0 where
    -- `let saved_flags = C::disable_and_save()`.
    disable :
        (i : ℕ)
        → l.places i ≡ outside
        → Step l (record l {
          places = at l.places i (exchanging (c.saved (l.flags i)));
          flags = at l.flags i (c.disabled (l.flags i));
        })
    -- The exchange succeeds.
    acquire :
        (i saved_flags : ℕ)
        → l.places i ≡ exchanging saved_flags
        → l.locked ≡ false
        → Step l (record l { locked = true; places = at l.places i (holding saved_flags) })
    -- The exchange fails, spuriously or because the lock is taken.
    fail :
        (i saved_flags : ℕ)
        → l.places i ≡ exchanging saved_flags
        → Step l (record l { places = at l.places i (waiting saved_flags) })
    -- The load of the inner loop sees the lock taken, or free.
    spin : (i saved_flags : ℕ) → l.places i ≡ waiting saved_flags → l.locked ≡ true → Step l l
    retry :
        (i saved_flags : ℕ)
        → l.places i ≡ waiting saved_flags
        → l.locked ≡ false
        → Step l (record l { places = at l.places i (exchanging saved_flags) })
    -- `deref_mut` through the guard.
    mutate :
        (i saved_flags : ℕ) (contents : T)
        → l.places i ≡ holding saved_flags
        → Step l (record l { contents = contents })
    -- `drop`: the store, then `C::restore`.
    unlock :
        (i saved_flags : ℕ)
        → l.places i ≡ holding saved_flags
        → Step l (record l { locked = false; places = at l.places i (dropping saved_flags) })
    restore_flags :
        (i saved_flags : ℕ)
        → l.places i ≡ dropping saved_flags
        → Step l (record l {
          places = at l.places i outside;
          flags = at l.flags i (c.restore saved_flags (l.flags i));
        })

  -- Any number of steps from a new lock.
  pub data Reachable (contents : T) (flags : ℕ → ℕ) : InterruptSafeSpinlock T → Type 0 where
    start : Reachable contents flags (new contents flags)
    next :
        {l l' : InterruptSafeSpinlock T}
        → Reachable contents flags l
        → Step l l'
        → Reachable contents flags l'
