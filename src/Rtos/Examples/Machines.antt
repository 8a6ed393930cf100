-- ===== src/Rtos/Examples/Machines.antt =====
-- The state machine, the latency tracker and the pool.
use shawn_core_libraries.Base.{
  ℕ, ◌+◌, ◌-◌, ◌*◌, ◌%◌, ◌^◌, min, ◌≡◌, ◌≢◌, refl, true, false, List, [], ◌∷◌, length, ok, err,
  arith,
}
use shawn_core_libraries.Base.{get_or, get_or-replicate, get_or-cons}
use shawn_core_libraries.Rtos.Error.{double_free}
use shawn_core_libraries.Rtos.Pool.FreeList.{IsValid, allocate_first, free_first}
use shawn_core_libraries.Rtos.Pool.Tokens.{stale_token}
use shawn_core_libraries.Rtos.StateMachine.{
  init, bootstrapping, terminal, StateMachine, new, Moment,
}
use shawn_core_libraries.Rtos.StateMachine.Transitions.{Attempt, Lawful, trace, race-Lawful}
use shawn_core_libraries.Rtos.Latency
use shawn_core_libraries.Rtos.Latency.Totals.{
  Mark, starts, ends, marked, deltas, sum, largest, marked-deltas,
}
use shawn_core_libraries.Rtos.Pool

-- Two threads boot; the one that is late finds the other's state.
abbrev turns : List Attempt
turns =
    record { loaded = 0; target = bootstrapping; spurious = true }
    ∷ record { loaded = 0; target = bootstrapping; spurious = false }
    ∷ record { loaded = 0; target = bootstrapping; spurious = false }
    ∷ record { loaded = 1; target = terminal; spurious = false }
    ∷ []

race-Lawful_example : Lawful init (trace new turns)
race-Lawful_example = race-Lawful turns

abbrev stopped : StateMachine
stopped = record { current_state = 4 }

-- The first exchange finds that another thread has booted the machine.
abbrev moments : List Moment
moments =
    record { found = record { current_state = 1 }; spurious = false }
    ∷ record { found = record { current_state = 1 }; spurious = false }
    ∷ []

-- An end without a start, a measurement, and a clock that runs backwards.
abbrev marks : List Mark
marks = ends 5 ∷ starts 10 ∷ ends 17 ∷ starts 20 ∷ ends 12 ∷ ends 23 ∷ []

marked-deltas_example :
    let ds = deltas false 0 marks in
    let t = marked Latency.new marks in
    (t.max_latency ≡ largest ds)
    × (t.total_latency ≡ min (2 ^ 64 - 1) (sum ds))
    × (t.samples ≡ length ds % 2 ^ 64)
marked-deltas_example = marked-deltas marks

abbrev pool : Pool.StaticDmaPool
pool = (Pool.init 3 (Pool.new 3) 4096 64 8 192 1).1

abbrev claimed : Pool.StaticDmaPool
claimed = (Pool.allocate 3 pool 64).1

-- A token that the slot does not carry.
-- The pool after `init`: its three slots are free.
pool-IsValid : IsValid 3 pool (0 ∷ 1 ∷ 2 ∷ [])
unfolding Pool.init Pool.pack_head Pool.unpack_head Pool.links Pool.new
pool-IsValid = record {
  ready = refl;
  bound = omega arith;
  sizes = (refl, refl);
  linked = (refl, omega arith, refl, (refl, omega arith, refl, (refl, omega arith, refl, refl)));
  owned = λ i inside. ground (arith, get_or-replicate {A = ℕ} 3 i 0);
}

stale_token_example :
    let (r, held) = Pool.allocate 3 pool 64 in
    let token = Pool.next_generation (get_or pool.ownership 0 0) in
    let (f, back) = Pool.free 3 held 0 token in
    let (r', again) = Pool.allocate 3 back 64 in
    (r ≡ ok (0, token, pool.memory + 0 * 64))
    × (f ≡ ok tt)
    × IsValid 3 back (0 ∷ 1 ∷ 2 ∷ [])
    × ((token' : ℕ) × (token' ≢ token)
        × (r' ≡ ok (0, token', pool.memory + 0 * 64))
        × (Pool.free 3 again 0 token ≡ (err double_free, again))
        × ((Pool.free 3 again 0 token').0 ≡ ok tt))
stale_token_example = stale_token 3 pool 64 0 (1 ∷ 2 ∷ []) pool-IsValid

allocate_first_example :
    let (r, pool') = Pool.allocate 3 pool 64 in
    (r ≡ ok (0, Pool.next_generation (get_or pool.ownership 0 0), pool.memory + 0 * 64))
    × IsValid 3 pool' (1 ∷ 2 ∷ [])
allocate_first_example = allocate_first 3 pool 64 0 (1 ∷ 2 ∷ []) pool-IsValid

free_first_example : IsValid 3 (Pool.free 3 claimed 0 1).1 (0 ∷ 1 ∷ 2 ∷ [])
unfolding Pool.free Pool.allocate Pool.init Pool.new Pool.next_generation
free_first_example =
    free_first 3 claimed 0 1 (1 ∷ 2 ∷ []) (allocate_first 3 pool 64 0 (1 ∷ 2 ∷ []) pool-IsValid).1
      refl

-- A pool of one slot, which is taken.
abbrev full : Pool.StaticDmaPool
full = record pool {
  free_list_head = Pool.pack_head Pool.free_list_empty 1;
  next = Pool.free_list_empty ∷ [];
  ownership = (2 ^ 63 + 1) ∷ [];
}

full-IsValid : IsValid 1 full []
unfolding Pool.init Pool.pack_head Pool.unpack_head Pool.new
full-IsValid = record {
  ready = refl;
  bound = omega arith;
  sizes = (refl, refl);
  linked = refl;
  owned = λ i inside. ground (arith, get_or-cons {A = ℕ} (2 ^ 63 + 1) [] i 0);
}
