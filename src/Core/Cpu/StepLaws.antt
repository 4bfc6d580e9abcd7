-- ===== src/Core/Cpu/StepLaws.antt =====
-- src/core/cpu.cpp, `fetch` and `step`: how a fetch ends, and what it fetched, with the counters.
use homemade_risc_v_64_vecto.Base.{
  ℕ, ◌-◌, ◌≡◌, refl, ◌⊎◌, inl, inr, bit_and, Bool, true, false, not, ◌&&◌, ltb, ◌==◌, if◌then◌else◌,
  Option, none, some,
}
use homemade_risc_v_64_vecto.Bus.Region.{RegionOps}
use homemade_risc_v_64_vecto.Bus.Range.{max_u64}
use homemade_risc_v_64_vecto.Core.Trap.{Trap}
use homemade_risc_v_64_vecto.Core.Csr.State.{CsrFile}
use homemade_risc_v_64_vecto.Core.Decoder.{InstructionPacket}
use homemade_risc_v_64_vecto.Core.Cpu.State.{CpuState}
use homemade_risc_v_64_vecto.Core.Cpu.Guest.{Cpu, StepResult, GuestAccessResult}
use homemade_risc_v_64_vecto.Core.Cpu.Fetch.{FetchResult, fetch, fetch_lower, fetch_upper}
use homemade_risc_v_64_vecto.Core.Cpu.Execute.{Outcome, step_failure}
use homemade_risc_v_64_vecto.Core.Cpu.Dispatch.{FloatingUnit, execute}
use homemade_risc_v_64_vecto.Core.Cpu.Step.{count_cycle, count_step, execute_fetched}
use homemade_risc_v_64_vecto.Core.Cpu.Precise.{Unmoved, TrapsAt, Ends, IsPrecise, Accesses, unmoved}
use homemade_risc_v_64_vecto.Core.Cpu.PreciseAccess.{guest_read-Accesses}
use homemade_risc_v_64_vecto.Core.Cpu.PreciseStep.{IsPreciseUnit, execute-IsPrecise}

-- What a fetch returns: a trap of this address, or the packet of this address, two or four bytes long.
abbrev pub FetchEnds : ℕ → Option InstructionPacket → Option Trap → Type 0
FetchEnds pc instruction (some trap) = trap.program_counter ≡ pc
FetchEnds pc (some packet) none =
    (packet.program_counter ≡ pc) × ((packet.length ≡ 2) ⊎ (packet.length ≡ 4))
FetchEnds pc none none = Unit

-- And the state of the hart is as it was.
abbrev pub Fetches : (D : Type 0) → CpuState → ℕ → Option (FetchResult × Cpu D) → Type 0
Fetches D s pc none = Unit
Fetches D s pc (some (result, c)) = (c.state ≡ s) × FetchEnds pc result.instruction result.trap

pub record IsFetching (D : Type 0) (s : CpuState) (pc : ℕ) (o : Option (FetchResult × Cpu D))
    : Type 0 where
  pub ends : Fetches D s pc o

module _ {D : Type 0} (ops : RegionOps D) (fuel : ℕ) where
  choose :
      (s : CpuState) (pc : ℕ) (b : Bool) {x y : Option (FetchResult × Cpu D)}
      → IsFetching D s pc x
      → IsFetching D s pc y
      → IsFetching D s pc (if b then x else y)
  choose s pc true h k = h
  choose s pc false h k = k

  on_trap :
      (s : CpuState) (pc : ℕ) (trap : Option Trap) {f : Trap → Option (FetchResult × Cpu D)}
      {x : Option (FetchResult × Cpu D)}
      → TrapsAt pc trap
      → ((t : Trap) → t.program_counter ≡ pc → IsFetching D s pc (f t))
      → IsFetching D s pc x
      → IsFetching D s pc (elim trap [ some t ↦ f t | none ↦ x ])
  on_trap s pc none e h k = k
  on_trap s pc (some t) e h k = h t e

  fetch_upper-IsFetching :
      (s : CpuState) (pc lower : ℕ) (o : Option (GuestAccessResult × Cpu D))
      → Accesses D s pc o
      → IsFetching D s pc (fetch_upper ops fuel pc lower o)
  unfolding fetch_upper
  fetch_upper-IsFetching s pc lower none h = record { ends = tt }
  fetch_upper-IsFetching s pc lower (some (result, c)) h =
      on_trap s pc result.trap h.1 (λ t e. record { ends = (h.0, e) })
        (record { ends = (h.0, (refl, inr refl)) })

  fetch_lower-IsFetching :
      (s : CpuState) (packet : InstructionPacket) (o : Option (GuestAccessResult × Cpu D))
      → Accesses D s packet.program_counter o
      → IsFetching D s packet.program_counter (fetch_lower ops fuel packet.program_counter packet o)
  unfolding fetch_lower
  fetch_lower-IsFetching s packet none h = record { ends = tt }
  fetch_lower-IsFetching s packet (some (result, c)) h =
      let pc : ℕ = packet.program_counter in
      on_trap s pc result.trap h.1 (λ t e. record { ends = (h.0, e) })
        (choose s pc (not (bit_and (bit_and result.access.value 0xFFFF) 3 == 3))
          (record { ends = (h.0, (refl, inl refl)) })
          (choose s pc (ltb (max_u64 - 2) pc) (record { ends = (h.0, refl) })
            (fetch_upper-IsFetching s pc _ _
              (rw (← h.0) (guest_read-Accesses ops fuel c packet _ _ _ _)))))

  -- A fetch traps at its own address, or gives the packet at its address, of two or four bytes, and
  -- leaves the state of the hart as it is.
  pub fetch-IsFetching :
      (c : Cpu D) → IsFetching D c.state c.state.program_counter (fetch ops fuel c)
  unfolding fetch
  fetch-IsFetching c =
      let pc : ℕ = c.state.program_counter in
      let packet : InstructionPacket = record { program_counter = pc; bits = 0; length = 0 } in
      choose c.state pc (not (bit_and pc 1 == 0)) (record { ends = (refl, refl) })
        (fetch_lower-IsFetching c.state packet _ (guest_read-Accesses ops fuel c packet _ _ _ _))

other_csrs : (s t : CpuState) (csrs : CsrFile) → Unmoved s t → Unmoved s (record t { csrs = csrs })
other_csrs s t csrs u = record {
  integers = u.integers;
  floats = u.floats;
  counter = u.counter;
  mode = u.mode;
  waiting = u.waiting;
}

abbrev renew : CpuState → (CsrFile → CsrFile) → CpuState
renew t f = record t { csrs = f t.csrs }

Ends-csrs :
    (s : CpuState) (pc : ℕ) (result : StepResult) (t : CpuState) (csrs : CsrFile)
    → Ends s pc result t
    → Ends s pc result (record t { csrs = csrs })
Ends-csrs s pc result t csrs (inl h) = inl h
Ends-csrs s pc result t csrs (inr h) = inr (h.0, h.1, h.2, other_csrs s t csrs h.3)

module _ {D : Type 0} (ops : RegionOps D) (unit : FloatingUnit D) (fuel : ℕ)
    (precise : IsPreciseUnit D unit) where
  if_Ends :
      (s : CpuState) (pc : ℕ) (result : StepResult) (b : Bool) (x y : Cpu D)
      → Ends s pc result x.state
      → Ends s pc result y.state
      → Ends s pc result (if b then x else y).state
  if_Ends s pc result true x y h k = h
  if_Ends s pc result false x y h k = k

  count_step-IsPrecise :
      (s : CpuState) (pc : ℕ) (o : Outcome D) → IsPrecise D s pc o → IsPrecise D s pc (count_step o)
  unfolding count_step
  count_step-IsPrecise s pc none h = h
  count_step-IsPrecise s pc (some (result, c)) h =
      let counted =
        if_Ends s pc result (not c.suppress_cycle_increment) _ _
          (Ends-csrs s pc result c.state _ h.ends) h.ends in
      record {
        ends =
            if_Ends s pc result (result.retired && not c.suppress_instret_increment) _ _
              (Ends-csrs s pc result _ _ counted) counted;
      }

  after_fetch :
      (s : CpuState) (pc : ℕ) (c : Cpu D) (instruction : Option InstructionPacket)
      (trap : Option Trap)
      → c.state ≡ s
      → FetchEnds pc instruction trap
      → IsPrecise D s pc (elim trap [
        | some t ↦ some (step_failure t 0, count_cycle c)
        | none ↦ elim instruction [
          | none ↦ none
          | some packet ↦ count_step (execute ops unit fuel c packet)
        ]
      ])
  after_fetch s pc c instruction (some trap) e f = record {
    ends = inr (refl, refl, f, other_csrs s c.state _ (rw e (unmoved s)));
  }
  after_fetch s pc c none none e f = record { ends = tt }
  after_fetch s pc c (some packet) none e f =
      count_step-IsPrecise s pc _
        (rw (← e, ← f.0) (execute-IsPrecise ops unit fuel precise c packet))

  pub execute_fetched-IsPrecise :
      (s : CpuState) (pc : ℕ) (o : Option (FetchResult × Cpu D))
      → IsFetching D s pc o
      → IsPrecise D s pc (execute_fetched ops unit fuel o)
  unfolding execute_fetched
  execute_fetched-IsPrecise s pc none h = record { ends = tt }
  execute_fetched-IsPrecise s pc (some (result, c)) h =
      after_fetch s pc c result.instruction result.trap h.ends.0 h.ends.1
