-- ===== src/Rtos/StateMachine/Advance.antt =====
-- The loop of `try_advance` in state_machine.rs: that it ends, and what it returns.
use shawn_core_libraries.Base.{ℕ, ◌≡◌, Option, some, Result, ◌≢◌, ok, err}
use shawn_core_libraries.Rtos.StateMachine.{EnclaveState, code, StateMachine}
use shawn_core_libraries.Rtos.StateMachine.Transitions.{Allowed}

-- What the loop returns: a change from a state that some turn found, or a refusal because a value
-- that was loaded is the code of no state that may change to the target.
pub data Answered (target : EnclaveState)
    : Option (Result (Unit {0}) (Unit {0}) × StateMachine) → Type 0 where
  changed :
      (found : StateMachine) (s : EnclaveState)
      → found.current_state ≡ code s
      → Allowed s target
      → Answered target (some (ok tt, record found { current_state = code target }))
  refused :
      (loaded : ℕ) (m : StateMachine)
      → ((s : EnclaveState) → Allowed s target → loaded ≢ code s)
      → Answered target (some (err tt, m))
