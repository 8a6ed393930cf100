-- ===== src/Rtos/StateMachine/Transitions.antt =====
-- Threads that race on the cell of state_machine.rs.
use shawn_core_libraries.Base.{
  ℕ, ◌≡◌, refl, ap, Bool, true, false, not, ◌&&◌, ◌==◌, some, ◌∙◌, List, [], ◌∷◌, ok, ◌⊎◌, inl, inr,
  Bool-cases, arith,
}
use shawn_core_libraries.Rtos.StateMachine.{
  EnclaveState, init, bootstrapping, operational, degraded, terminal, code, StateMachine, new,
  valid, get_state, turn, Moment, advance_loop, try_advance,
}

-- The transitions that the documentation of the states allows.
pub data Allowed : EnclaveState → EnclaveState → Type 0 where
  boot : Allowed init bootstrapping
  start : Allowed bootstrapping operational
  abort : Allowed bootstrapping terminal
  degrade : Allowed operational degraded
  fail : Allowed operational terminal
  give_up : Allowed degraded terminal
  recover : Allowed degraded operational

-- One turn of some thread, with whatever value it last loaded, however stale.
pub record Attempt : Type 0 where
  pub loaded : ℕ
  pub target : EnclaveState
  pub spurious : Bool

-- The cell after any interleaving of turns of any number of threads.
unfoldable pub race : StateMachine → List Attempt → StateMachine
race m [] = m
race m (a ∷ as') = race (turn m a.loaded a.target a.spurious).1 as'

valid-Allowed : (s t : EnclaveState) → valid (code s) (code t) ≡ true → Allowed s t
unfolding valid
valid-Allowed init init h = absurd (ground arith)
valid-Allowed init bootstrapping h = boot
valid-Allowed init operational h = absurd (ground arith)
valid-Allowed init degraded h = absurd (ground arith)
valid-Allowed init terminal h = absurd (ground arith)
valid-Allowed bootstrapping init h = absurd (ground arith)
valid-Allowed bootstrapping bootstrapping h = absurd (ground arith)
valid-Allowed bootstrapping operational h = start
valid-Allowed bootstrapping degraded h = absurd (ground arith)
valid-Allowed bootstrapping terminal h = abort
valid-Allowed operational init h = absurd (ground arith)
valid-Allowed operational bootstrapping h = absurd (ground arith)
valid-Allowed operational operational h = absurd (ground arith)
valid-Allowed operational degraded h = degrade
valid-Allowed operational terminal h = fail
valid-Allowed degraded init h = absurd (ground arith)
valid-Allowed degraded bootstrapping h = absurd (ground arith)
valid-Allowed degraded operational h = recover
valid-Allowed degraded degraded h = absurd (ground arith)
valid-Allowed degraded terminal h = give_up
valid-Allowed terminal init h = absurd (ground arith)
valid-Allowed terminal bootstrapping h = absurd (ground arith)
valid-Allowed terminal operational h = absurd (ground arith)
valid-Allowed terminal degraded h = absurd (ground arith)
valid-Allowed terminal terminal h = absurd (ground arith)

turn_cases :
    (m : StateMachine) (s : EnclaveState) (current : ℕ) (target : EnclaveState) (spurious : Bool)
    → m.current_state ≡ code s
    → ((turn m current target spurious).1 ≡ m)
      ⊎ ((valid (code s) (code target) ≡ true)
          × ((turn m current target spurious).1.current_state ≡ code target))
unfolding turn
turn_cases m s current target spurious h =
    ground (arith, ap (λ c. valid c (code target)) {x = current} {y = code s})

-- What the cell holds after each of the turns, oldest first.
unfoldable pub trace : StateMachine → List Attempt → List ℕ
trace m [] = []
trace m (a ∷ as') = let m' = (turn m a.loaded a.target a.spurious).1 in get_state m' ∷ trace m' as'

-- Each code of the list is that of a state: the one before, or one that it may change to.
abbrev pub Lawful : EnclaveState → List ℕ → Type 0
Lawful s [] = Unit {0}
Lawful s (c ∷ cs) = (t : EnclaveState) × (c ≡ code t) × ((s ≡ t) ⊎ Allowed s t) × Lawful t cs

trace-Lawful :
    (m : StateMachine) (s : EnclaveState) (as' : List Attempt)
    → m.current_state ≡ code s
    → Lawful s (trace m as')
unfolding trace get_state
trace-Lawful m s [] h = tt
trace-Lawful m s (a ∷ as') h =
    let m' = (turn m a.loaded a.target a.spurious).1 in
    elim (turn_cases m s a.loaded a.target a.spurious h) [
      | inl same ↦
          let kept : m'.current_state ≡ code s = ap (λ n. n.current_state) same ∙ h in
          (s, kept, inl refl, trace-Lawful m' s as' kept)
      | inr (allowed, moved) ↦ (
        a.target,
        moved,
        inr (valid-Allowed s a.target allowed),
        trace-Lawful m' a.target as' moved,
      )
    ]

-- Whatever threads race on a new machine, whatever stale values they loaded and however their
-- exchanges fail: after each turn the cell holds the state of before or one that the documented
-- transitions lead to from it in one step.
pub race-Lawful : (as' : List Attempt) → Lawful init (trace new as')
race-Lawful as' = trace-Lawful new init as' refl

no_exit : (t : EnclaveState) → valid (code terminal) (code t) ≡ false
unfolding valid
no_exit init = refl
no_exit bootstrapping = refl
no_exit operational = refl
no_exit degraded = refl
no_exit terminal = refl

-- Whatever threads race on a cell that holds `terminal`, it holds `terminal` after them.
pub terminal_final :
    (m : StateMachine) (as' : List Attempt)
    → get_state m ≡ code terminal
    → get_state (race m as') ≡ code terminal
unfolding race get_state
terminal_final m [] h = h
terminal_final m (a ∷ as') h =
    terminal_final (turn m a.loaded a.target a.spurious).1 as'
      (elim (turn_cases m terminal a.loaded a.target a.spurious h) [
        | inl same ↦ rw same h
        | inr (allowed, moved) ↦ absurd (ground (arith, no_exit a.target))
      ])

loop_sound :
    (current : ℕ) (target : EnclaveState) (moments : List Moment) {m' : StateMachine}
    → advance_loop current target moments ≡ some (ok tt, m')
    → (before : Moment) × (valid before.found.current_state (code target) ≡ true)
      × (before.spurious ≡ false)
      × (m' ≡ record before.found { current_state = code target })
unfolding advance_loop turn
loop_sound current target [] h = absurd (ground arith)
loop_sound current target (t ∷ ts) h = elim (Bool-cases (valid current (code target))) [
  | inr refused ↦ absurd (ground arith)
  | inl allowed ↦ elim (Bool-cases (t.found.current_state == current && not t.spurious)) [
    | inl swapped ↦ (
      t,
      ground (arith, ap (λ c. valid c (code target)) {x = t.found.current_state} {y = current}),
      ground arith,
      ground arith,
    )
    | inr failed ↦ loop_sound t.found.current_state target ts (ground arith)
  ]
]

-- Whatever the turns of the loop meet, success means that one turn found a state from which the
-- target is allowed and stored the target over it.
pub try_advance_sound :
    (m : StateMachine) (target : EnclaveState) (moments : List Moment) {m' : StateMachine}
    → try_advance m target moments ≡ some (ok tt, m')
    → (before : Moment) × (valid before.found.current_state (code target) ≡ true)
      × (before.spurious ≡ false)
      × (m' ≡ record before.found { current_state = code target })
unfolding try_advance
try_advance_sound m target moments h = loop_sound m.current_state target moments h
