-- ===== src/Core/Cpu/Endings.antt =====
-- src/core/cpu.cpp, `execute` and `step`: scalar integer instructions end, and how.
use homemade_risc_v_64_vecto.Base.{
  ℕ, suc, ◌≡◌, ◌≢◌, refl, Bool, true, false, not, ◌&&◌, ◌==◌, if◌then◌else◌, none, some, bit_and,
  add64,
}
use homemade_risc_v_64_vecto.Bus.Region.{RegionOps}
use homemade_risc_v_64_vecto.Bus.Layout.{IsWellFormed}
use homemade_risc_v_64_vecto.Memory.WalkLaws.{Steady}
use homemade_risc_v_64_vecto.Core.Csr.State.{CsrFile}
use homemade_risc_v_64_vecto.Core.Csr.Context.{increment_cycle}
use homemade_risc_v_64_vecto.Core.Csr.Traps.{has_locally_enabled_interrupt}
use homemade_risc_v_64_vecto.Core.Cpu.State.{CpuState}
use homemade_risc_v_64_vecto.Core.Cpu.Guest.{Cpu, StepResult}
use homemade_risc_v_64_vecto.Core.Cpu.Fetch.{fetch}
use homemade_risc_v_64_vecto.Core.Cpu.Execute.{Outcome, step_wait}
use homemade_risc_v_64_vecto.Core.Cpu.Dispatch.{FloatingUnit}
use homemade_risc_v_64_vecto.Core.Cpu.Step.{awake, count_cycle, execute_fetched, step}
use homemade_risc_v_64_vecto.Core.Cpu.Precise.{IsPrecise, Ends, own_illegal}
use homemade_risc_v_64_vecto.Core.Cpu.PreciseStep.{IsPreciseUnit}
use homemade_risc_v_64_vecto.Core.Cpu.Returns.{Returns}
use homemade_risc_v_64_vecto.Core.Cpu.UnitFree.{fetches_integer, refusing, execute_fetched_same}
use homemade_risc_v_64_vecto.Core.Cpu.StepReturns.{execute_fetched-Returns, fetch-IsReady}
use homemade_risc_v_64_vecto.Core.Cpu.StepLaws.{fetch-IsFetching, execute_fetched-IsPrecise}

refusing-IsPreciseUnit : (D : Type 0) → IsPreciseUnit D (refusing D)
refusing-IsPreciseUnit D = record {
  scalar = λ c packet i next. own_illegal c packet i next;
  vector = λ packet. tt;
}

-- The run has a result, which retires without a trap, or does not retire and traps at `pc` with the
-- registers of `s`.
pub record Finishes (D : Type 0) (s : CpuState) (pc : ℕ) (outcome : Outcome D) : Type 0 where
  pub result : StepResult × Cpu D
  pub returned : outcome ≡ some result
  pub ends : Ends s pc result.0 result.1.state

finishes :
    {D : Type 0} (s : CpuState) (pc : ℕ) (o : Outcome D)
    → Returns o
    → IsPrecise D s pc o
    → Finishes D s pc o
finishes s pc none r p = absurd (no_result r.returned)
  where
    no_result : false ≢ true
    no_result = cc
finishes s pc (some result) r p = record { result = result; returned = refl; ends = p.ends }

-- A step in WFI: it stalls, and with the cycle counter put back the machine is as before.
pub record Waits (D : Type 0) (before : Cpu D) (outcome : Outcome D) : Type 0 where
  pub result : StepResult × Cpu D
  pub returned : outcome ≡ some result
  pub stalled : result.0.stalled ≡ true
  pub retired : result.0.retired ≡ false
  pub no_trap : result.0.trap ≡ none
  pub bus : result.1.bus ≡ before.bus
  pub mmu : result.1.mmu ≡ before.mmu
  pub state :
      record result.1.state {
        csrs = record result.1.state.csrs { cycle = before.state.csrs.cycle };
      }
      ≡ before.state

-- The end of a step, on whether the hart is to go on waiting.
abbrev pub EndsStep : (D : Type 0) → Bool → Cpu D → Outcome D → Type 0
EndsStep D true before outcome = Waits D before outcome
EndsStep D false before outcome =
    Finishes D (awake before).state before.state.program_counter outcome

same_but_cycle : (c : CsrFile) → record (increment_cycle c) { cycle = c.cycle } ≡ c
unfolding increment_cycle
same_but_cycle c = either (bit_and c.mcountinhibit 1 == 0)
  where
    either :
        (b : Bool)
        → record (if b then record c { cycle = add64 c.cycle 1 } else c) { cycle = c.cycle } ≡ c
    either true = refl
    either false = refl

module _ {D : Type 0} (ops : RegionOps D) (fuel : ℕ) (unit : FloatingUnit D)
    (steady : Steady ops) where
  execute_fetched-Finishes :
      (c : Cpu D)
      → IsWellFormed c.bus
      → fetches_integer (fetch ops (suc fuel) c) ≡ true
      → Finishes D c.state c.state.program_counter
          (execute_fetched ops unit (suc fuel) (fetch ops (suc fuel) c))
  execute_fetched-Finishes c valid plain =
      rw (execute_fetched_same ops unit (refusing D) (suc fuel) (fetch ops (suc fuel) c) plain) (
        finishes c.state c.state.program_counter _
          (execute_fetched-Returns ops fuel steady (refusing D) _
            (fetch-IsReady ops fuel steady c valid) plain)
          (execute_fetched-IsPrecise ops (refusing D) (suc fuel) (refusing-IsPreciseUnit D) c.state
            c.state.program_counter _ (fetch-IsFetching ops (suc fuel) c)))

  -- A step of the hart comes to an end with any fuel above zero, on a well-formed bus of devices
  -- whose exchange right after a read takes place. In WFI and while no interrupt is pending that is
  -- enabled in mie, it stalls without a trap, with the bus, the MMU and the whole state of the hart
  -- as they were but for the cycle counter. Otherwise an instruction retires without a trap, or
  -- nothing retires and there is a trap at the address that the program counter holds, with the
  -- integer and floating-point registers, the program counter and the privilege mode as they were
  -- and the hart awake. What the step fetches, if it fetches an instruction, is asked to be a
  -- scalar integer one, so neither a floating-point nor a vector instruction, loads and stores
  -- included, nor an atomic memory operation other than LR and SC.
  pub step-EndsStep :
      (c : Cpu D)
      → IsWellFormed c.bus
      → fetches_integer (fetch ops (suc fuel) (awake c)) ≡ true
      → EndsStep D
          (c.state.waiting_for_interrupt && not (has_locally_enabled_interrupt c.state.csrs))
          c
          (step ops unit (suc fuel) c)
  unfolding step
  step-EndsStep c valid plain =
      decided (c.state.waiting_for_interrupt && not (has_locally_enabled_interrupt c.state.csrs))
    where
      decided :
          (waits : Bool)
          → EndsStep D waits c (
              if waits
              then some (
                step_wait,
                count_cycle (record c {
                  suppress_cycle_increment = false;
                  suppress_instret_increment = false;
                }),
              )
              else execute_fetched ops unit (suc fuel) (fetch ops (suc fuel) (awake c)))
      decided true = record {
        result = _;
        returned = refl;
        stalled = refl;
        retired = refl;
        no_trap = refl;
        bus = refl;
        mmu = refl;
        state = rw (same_but_cycle c.state.csrs) refl;
      }
      decided false = execute_fetched-Finishes (awake c) valid plain
