-- ===== src/Rtos/StateMachine.antt =====
-- shawncore-rtos-sync/src/state_machine.rs: the state cell that threads advance without a lock.
pub mod Transitions
pub mod Advance
use shawn_core_libraries.Base.{
  ℕ, Bool, true, false, not, ◌&&◌, ◌||◌, Option, none, some, List, [], ◌∷◌, Result, ok, err,
  if◌then◌else◌, ◌==◌,
}

pub data EnclaveState : Type 0 where
  init bootstrapping operational degraded terminal : EnclaveState

-- `as u8`.
abbrev pub code : EnclaveState → ℕ
code init = 0
code bootstrapping = 1
code operational = 2
code degraded = 3
code terminal = 4

pub record StateMachine : Type 0 where
  pub current_state : ℕ  -- u8

abbrev pub new : StateMachine
new = record { current_state = code init }

unfoldable pub get_state : StateMachine → ℕ
get_state m = m.current_state

abbrev pub pair : ℕ → ℕ → ℕ → ℕ → Bool
pair current target a b = current == a && target == b

-- The `matches!` of the loop.
unfoldable pub valid : (current target : ℕ) → Bool
valid current target =
    pair current target 0 1
    || (pair current target 1 2
        || (pair current target 1 4
            || (pair current target 2 3
                || (pair current target 2 4
                    || (pair current target 3 4 || pair current target 3 2)))))

-- What one turn of the loop ends in.
pub data Turn : Type 0 where
  returns : Result (Unit {0}) (Unit {0}) → Turn
  retries : (updated : ℕ) → Turn

-- One turn, for the value that the thread last loaded. The weak exchange may fail although the cell
-- holds that value: `spurious`.
unfoldable pub turn :
    StateMachine → (current : ℕ) → EnclaveState → (spurious : Bool) → Turn × StateMachine
unfolding valid
turn m current target spurious =
    if not (valid current (code target))
    then (returns (err tt), m)
    else if m.current_state == current && not spurious
    then (returns (ok tt), record m { current_state = code target })
    else (retries m.current_state, m)

-- The cell as a turn finds it, after whatever other threads did, and whether its exchange fails
-- spuriously.
pub record Moment : Type 0 where
  pub found : StateMachine
  pub spurious : Bool

-- The loop over the moments of its turns: the result, and the cell that the last turn leaves, or
-- `none` while it still turns.
unfoldable pub advance_loop :
    (current : ℕ)
    → EnclaveState
    → List Moment
    → Option (Result (Unit {0}) (Unit {0}) × StateMachine)
unfolding turn
advance_loop current target [] = none
advance_loop current target (t ∷ ts) =
    let (end, m) = turn t.found current target t.spurious in
    elim end [ returns r ↦ some (r, m) | retries updated ↦ advance_loop updated target ts ]

-- The first load, then the loop.
unfoldable pub try_advance :
    StateMachine → EnclaveState → List Moment → Option (Result (Unit {0}) (Unit {0}) × StateMachine)
unfolding advance_loop
try_advance m target moments = advance_loop m.current_state target moments
