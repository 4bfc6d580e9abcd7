-- ===== src/Core/Cpu/Step.antt =====
-- src/core/cpu.cpp: one step of the hart, the delivery of a trap and of a pending interrupt.
use homemade_risc_v_64_vecto.Base.{
  ℕ, ◌^◌, bit_or, Bool, true, false, not, ◌&&◌, if◌then◌else◌, Option, none, some,
}
use homemade_risc_v_64_vecto.Bus.Region.{RegionOps}
use homemade_risc_v_64_vecto.Core.Trap.{
  PrivilegeMode, supervisor, machine, is_supervisor, Trap, exception_code, interrupt_code,
}
use homemade_risc_v_64_vecto.Core.Csr.State.{CsrFile}
use homemade_risc_v_64_vecto.Core.Csr.Context.{increment_cycle, increment_instret}
use homemade_risc_v_64_vecto.Core.Csr.Traps.{
  PendingInterrupt, has_locally_enabled_interrupt, select_pending_interrupt, exception_delegated,
  enter_machine_trap, enter_supervisor_trap, trap_vector,
}
use homemade_risc_v_64_vecto.Core.Cpu.State.{CpuState}
use homemade_risc_v_64_vecto.Core.Cpu.Guest.{Cpu}
use homemade_risc_v_64_vecto.Core.Cpu.Fetch.{FetchResult, fetch}
use homemade_risc_v_64_vecto.Core.Cpu.Execute.{Outcome, step_failure, step_wait, with_state}
use homemade_risc_v_64_vecto.Core.Cpu.Dispatch.{FloatingUnit, execute}

pub record TrapDelivery : Type 0 where
  pub interrupt : Bool
  pub cause : ℕ
  pub source : PrivilegeMode
  pub target : PrivilegeMode
  pub vector : ℕ

abbrev pub interrupt_flag : ℕ
interrupt_flag = 2 ^ 63

-- Trap entry in the target mode.
abbrev pub enter_trap : CsrFile → PrivilegeMode → PrivilegeMode → ℕ → ℕ → ℕ → CsrFile
enter_trap csrs target source pc cause value =
    if is_supervisor target
    then enter_supervisor_trap csrs source pc cause value
    else enter_machine_trap csrs source pc cause value

-- The state at the trap vector.
abbrev pub at_vector : CpuState → CsrFile → PrivilegeMode → ℕ → CpuState
at_vector s csrs target vector = record s {
  csrs = csrs;
  privilege = target;
  program_counter = vector;
  waiting_for_interrupt = false;
}

abbrev pub trap_target : CpuState → Trap → PrivilegeMode
trap_target s trap =
    if exception_delegated s.csrs s.privilege trap.cause then supervisor else machine

unfoldable pub take_trap : CpuState → Trap → TrapDelivery × CpuState
take_trap s trap =
    let cause = exception_code trap.cause in
    let target = trap_target s trap in
    let csrs = enter_trap s.csrs target s.privilege trap.program_counter cause trap.value in
    let vector = trap_vector csrs target false cause in
    (
      record {
        interrupt = false;
        cause = cause;
        source = s.privilege;
        target = target;
        vector = vector;
      },
      at_vector s csrs target vector,
    )

unfoldable pub deliver_interrupt :
    CpuState → Option PendingInterrupt → Option TrapDelivery × CpuState
deliver_interrupt s none = (none, s)
deliver_interrupt s (some pending) =
    let cause = interrupt_code pending.cause in
    let csrs =
      enter_trap s.csrs pending.target s.privilege s.program_counter (bit_or interrupt_flag cause)
        0 in
    let vector = trap_vector csrs pending.target true cause in
    (
      some (record {
        interrupt = true;
        cause = cause;
        source = s.privilege;
        target = pending.target;
        vector = vector;
      }),
      at_vector s csrs pending.target vector,
    )

unfoldable pub take_pending_interrupt : CpuState → Option TrapDelivery × CpuState
take_pending_interrupt s = deliver_interrupt s (select_pending_interrupt s.csrs s.privilege)

module _ {D : Type 0} where
  abbrev pub with_csrs : Cpu D → CsrFile → Cpu D
  with_csrs c csrs = with_state c (record c.state { csrs = csrs })

  abbrev pub count_cycle : Cpu D → Cpu D
  count_cycle c = with_csrs c (increment_cycle c.state.csrs)

  -- The counters after an instruction.
  unfoldable pub count_step : Outcome D → Outcome D
  count_step none = none
  count_step (some (result, c)) =
      let c1 = if not c.suppress_cycle_increment then count_cycle c else c in
      some (
        result,
        if result.retired && not c.suppress_instret_increment
            then with_csrs c1 (increment_instret c1.state.csrs)
            else c1,
      )

  abbrev pub awake : Cpu D → Cpu D
  awake c = record c {
    state = record c.state { waiting_for_interrupt = false };
    suppress_cycle_increment = false;
    suppress_instret_increment = false;
  }

module _ {D : Type 0} (ops : RegionOps D) (unit : FloatingUnit D) (fuel : ℕ) where
  unfoldable pub execute_fetched : Option (FetchResult × Cpu D) → Outcome D
  execute_fetched none = none
  execute_fetched (some (fetched, c)) = elim fetched.trap [
    | some trap ↦ some (step_failure trap 0, count_cycle c)
    | none ↦ elim fetched.instruction [
      | none ↦ none
      | some packet ↦ count_step (execute ops unit fuel c packet)
    ]
  ]

  -- A hart in WFI stays there until an interrupt is pending and enabled in mie.
  unfoldable pub step : Cpu D → Outcome D
  step c =
      let rest = execute_fetched (fetch ops fuel (awake c)) in
      if c.state.waiting_for_interrupt && not (has_locally_enabled_interrupt c.state.csrs)
      then some (
        step_wait,
        count_cycle
            (record c { suppress_cycle_increment = false; suppress_instret_increment = false }),
      )
      else rest
