-- ===== src/Rtos/Examples/Spinlock.antt =====
-- The lock of interrupt_spinlock.rs with a thread that takes and drops it.
use shawn_core_libraries.Base.{ℕ, ◌+◌, ◌≡◌, true, false, refl}
use shawn_core_libraries.Rtos.Spinlock.{
  InterruptContext, Place, outside, exchanging, holding, dropping, InterruptSafeSpinlock, at,
  disable, acquire, unlock, restore_flags, Reachable, start, next, new,
}
use shawn_core_libraries.Rtos.Spinlock.Exclusion.{guards_exclude}
use shawn_core_libraries.Rtos.Spinlock.Flags.{flags_restored}

-- A host that keeps the flags whole and clears them.
abbrev host : InterruptContext
host = record {
  saved = λ flags. flags;
  disabled = λ flags. 0;
  restore = λ saved_flags flags. saved_flags;
}

abbrev before : ℕ → ℕ
before i = 512 + i

-- Thread 1 saves its flags, takes the lock, drops it and gives the flags back.
abbrev saved : InterruptSafeSpinlock ℕ
saved = record (new {T = ℕ} 9 before) {
  places = at {A = Place} (λ _. outside) 1 (exchanging 513);
  flags = at before 1 0;
}

abbrev taken : InterruptSafeSpinlock ℕ
taken = record saved { locked = true; places = at saved.places 1 (holding 513) }

abbrev dropped : InterruptSafeSpinlock ℕ
dropped = record taken { locked = false; places = at taken.places 1 (dropping 513) }

abbrev restored : InterruptSafeSpinlock ℕ
restored = record dropped { places = at dropped.places 1 outside; flags = at dropped.flags 1 513 }

reaches_taken : Reachable host 9 before taken
reaches_taken = next {l = saved} (next start (disable 1 refl)) (acquire 1 513 refl refl)

reaches_restored : Reachable host 9 before restored
reaches_restored =
    next {l = dropped} (next {l = taken} reaches_taken (unlock 1 513 refl))
      (restore_flags 1 513 refl)

guards_exclude_example : (◌≡◌ {A = ℕ} 1 1) × (taken.locked ≡ true)
guards_exclude_example = guards_exclude host 9 before taken 1 1 513 513 reaches_taken refl refl

flags_restored_example : restored.flags 1 ≡ before 1
flags_restored_example =
    flags_restored host 9 before restored 1 (λ before now. refl) reaches_restored refl
