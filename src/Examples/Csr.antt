-- ===== src/Examples/Csr.antt =====
-- src/core/csr.cpp on the state after reset.
use homemade_risc_v_64_vecto.Base.{
  ◌*◌, ◌/◌, ◌^◌, ◌≤◌, ◌≡◌, ◌⊎◌, refl, ◌==◌, ◌&&◌, ◌||◌, not, if◌then◌else◌, true, none, some, arith,
}
use homemade_risc_v_64_vecto.Base.Bits.{bit_at}
use homemade_risc_v_64_vecto.Core.Trap.{
  user, supervisor, machine, is_machine, machine_timer, machine_external, machine_software,
}
use homemade_risc_v_64_vecto.Core.Csr.State.{CsrFile, reset_csrs}
use homemade_risc_v_64_vecto.Core.Csr.ReadValue.{read_value}
use homemade_risc_v_64_vecto.Core.Csr.Access.{CsrAccessRequest, access}
use homemade_risc_v_64_vecto.Core.Csr.Access
use homemade_risc_v_64_vecto.Core.Csr.Permission.{exists, access_allowed}
use homemade_risc_v_64_vecto.Core.Csr.Traps.{
  PendingInterrupt, deliverable, select_from, select_pending_interrupt, enter_machine_trap,
  enter_supervisor_trap, return_from_machine, return_from_supervisor,
}
use homemade_risc_v_64_vecto.Core.Csr.TrapLaws.{machine_trap_round_trip, supervisor_trap_round_trip}
use homemade_risc_v_64_vecto.Core.Csr.InterruptLaws.{urgency, select_most_urgent, select_none}
use homemade_risc_v_64_vecto.Core.Csr.AccessLaws.{
  access_allowed_lem, floating_open, vector_open, level_open, write_open, counter_open, satp_open,
  access_guarded,
}
use homemade_risc_v_64_vecto.Core.Csr.Isolation.{KeepsMachine, access-KeepsMachine}

abbrev initial : CsrFile
initial = reset_csrs

-- The timer interrupt is pending and enabled.
abbrev ticking : CsrFile
ticking = record reset_csrs { mip = 2 ^ 7; mie = 2 ^ 7; mstatus = 2 ^ 3 }

-- S-mode writes its scratch register.
abbrev scratch_write : CsrAccessRequest
scratch_write = record {
  address = 0x140;
  privilege = supervisor;
  reads = true;
  writes = true;
  operation = Access.replace;
  operand = 7;
}

access-KeepsMachine_example : KeepsMachine initial (access initial scratch_write).1
access-KeepsMachine_example = access-KeepsMachine initial scratch_write refl

machine_trap_round_trip_example :
    let r = return_from_machine (enter_machine_trap initial supervisor 0x80000004 8 0) in
    (r.0.privilege ≡ supervisor)
    × (r.0.program_counter ≡ 0x80000004 / 2 * 2)
    × (bit_at r.1.mstatus 17 ≡ (
        if 17 == 7
        then 1
        else if 17 == 11 || 17 == 12
        then 0
        else if 17 == 17 && not (is_machine supervisor)
        then 0
        else bit_at initial.mstatus 17))
machine_trap_round_trip_example =
    machine_trap_round_trip initial supervisor 0x80000004 8 0 17 (omega arith) (omega arith)

supervisor_trap_round_trip_example :
    let r = return_from_supervisor (enter_supervisor_trap initial user 0x1000 8 0) in
    (r.0.privilege ≡ user)
    × (r.0.program_counter ≡ 0x1000 / 2 * 2)
    × (bit_at r.1.mstatus 5
        ≡ (if 5 == 5 then 1 else if 5 == 8 || 5 == 17 then 0 else bit_at initial.mstatus 5))
supervisor_trap_round_trip_example =
    supervisor_trap_round_trip initial user 0x1000 8 0 5 refl (omega arith) (omega arith)

-- The timer is taken; it is the only deliverable interrupt.
abbrev timer_taken : PendingInterrupt
timer_taken = record { cause = machine_timer; target = machine }

select_most_urgent_example :
    (deliverable ticking machine machine_timer ≡ some machine)
    × ((deliverable ticking machine machine_software ≡ none)
        ⊎ (urgency machine_timer ≤ urgency machine_software))
unfolding select_pending_interrupt select_from deliverable
select_most_urgent_example = select_most_urgent ticking machine machine_software timer_taken refl

select_none_example : deliverable initial machine machine_external ≡ none
unfolding select_pending_interrupt select_from deliverable
select_none_example = select_none initial machine machine_external refl

access_allowed_lem_example : access_allowed initial 0x140 supervisor true ≡ (
    exists 0x140
    && floating_open initial 0x140
    && vector_open initial 0x140
    && level_open 0x140 supervisor
    && write_open 0x140 true
    && counter_open initial 0x140 supervisor
    && satp_open initial 0x140 supervisor)
access_allowed_lem_example = access_allowed_lem initial 0x140 supervisor true

access_guarded_example :
    let allowed = access_allowed initial 0x140 supervisor true in
    ((access initial scratch_write).0.succeeded ≡ allowed)
    × ((access initial scratch_write).0.value
        ≡ (if allowed && true then read_value initial 0x140 else 0))
    × ((access initial scratch_write).1
        ≡ (if allowed && true then (access initial scratch_write).1 else initial))
access_guarded_example = access_guarded initial scratch_write
