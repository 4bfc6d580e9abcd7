-- ===== src/Core/Csr/Traps.antt =====
-- src/core/csr.cpp: interrupt selection, trap entry and return, vectors and delegation.
use homemade_risc_v_64_vecto.Base.{
  ℕ, ◌*◌, ◌^◌, bit_or, bit_and, not64, shr, add64, u64, Bool, false, not, ◌||◌, ◌&&◌, ltb, ◌==◌,
  if◌then◌else◌, Option, none, some, List, [], ◌∷◌,
}
use homemade_risc_v_64_vecto.Core.Trap.{
  PrivilegeMode, user, supervisor, machine, privilege_rank, is_user, is_supervisor, is_machine,
  ExceptionCause, exception_code, InterruptCause, interrupt_code, machine_external,
  machine_software, machine_timer, supervisor_external, supervisor_software, supervisor_timer,
}
use homemade_risc_v_64_vecto.Core.Csr.State.{
  CsrFile, bit, implemented_interrupt_mask, epc_alignment_mask,
}
use homemade_risc_v_64_vecto.Core.Csr.Context.{cause_bit}

-- `(mstatus & bit(i)) != 0`, and an assignment of that bit.
abbrev pub has_bit : ℕ → ℕ → Bool
has_bit m i = not (bit_and m (bit i) == 0)

abbrev pub put_bit : ℕ → ℕ → Bool → ℕ
put_bit m i b = if b then bit_or m (bit i) else bit_and m (not64 (bit i))

unfoldable pub has_locally_enabled_interrupt : CsrFile → Bool
has_locally_enabled_interrupt c =
    not (bit_and (bit_and c.mip c.mie) implemented_interrupt_mask == 0)

pub record PendingInterrupt : Type 0 where
  pub cause : InterruptCause
  pub target : PrivilegeMode

abbrev pub interrupt_priority : List InterruptCause
interrupt_priority =
    machine_external ∷ machine_software ∷ machine_timer ∷ supervisor_external ∷ supervisor_software
    ∷ supervisor_timer ∷ []

-- One cause of the loop: where it would be taken now, if anywhere.
unfoldable pub deliverable : CsrFile → PrivilegeMode → InterruptCause → Option PrivilegeMode
deliverable c current cause =
    let mask = cause_bit (interrupt_code cause) in
    let candidates = bit_and (bit_and c.mip c.mie) implemented_interrupt_mask in
    if bit_and candidates mask == 0
    then none
    else if not (bit_and c.mideleg mask == 0)
    then if is_machine current
      then none
      else if is_user current || has_bit c.mstatus 1
      then some supervisor
      else none
    else if not (is_machine current) || has_bit c.mstatus 3
    then some machine
    else none

unfoldable pub select_from : CsrFile → PrivilegeMode → List InterruptCause → Option PendingInterrupt
select_from c current [] = none
select_from c current (cause ∷ rest) = elim (deliverable c current cause) [
  | none ↦ select_from c current rest
  | some t ↦ some (record { cause = cause; target = t })
]

unfoldable pub select_pending_interrupt : CsrFile → PrivilegeMode → Option PendingInterrupt
select_pending_interrupt c current = select_from c current interrupt_priority

unfoldable pub enter_machine_trap : CsrFile → PrivilegeMode → ℕ → ℕ → ℕ → CsrFile
enter_machine_trap c previous pc cause value =
    let m1 = put_bit c.mstatus 7 (has_bit c.mstatus 3) in
    let m2 = bit_and m1 (not64 (bit 3)) in
    record c {
      mstatus = bit_or (bit_and m2 (not64 (3 * 2 ^ 11))) (privilege_rank previous * 2 ^ 11);
      mepc = bit_and pc epc_alignment_mask;
      mcause = cause;
      mtval = value;
    }

unfoldable pub enter_supervisor_trap : CsrFile → PrivilegeMode → ℕ → ℕ → ℕ → CsrFile
enter_supervisor_trap c previous pc cause value =
    let m1 = put_bit c.mstatus 5 (has_bit c.mstatus 1) in
    let m2 = bit_and m1 (not64 (bit 1)) in
    record c {
      mstatus = put_bit m2 8 (not (is_user previous));
      sepc = bit_and pc epc_alignment_mask;
      scause = cause;
      stval = value;
    }

pub record TrapReturnState : Type 0 where
  pub privilege : PrivilegeMode
  pub program_counter : ℕ

abbrev pub decode_privilege : ℕ → PrivilegeMode
decode_privilege n = if n == 0 then user else if n == 1 then supervisor else machine

unfoldable pub return_from_machine : CsrFile → TrapReturnState × CsrFile
return_from_machine c =
    let target = decode_privilege (bit_and (shr c.mstatus 11) 3) in
    let m1 = put_bit c.mstatus 3 (has_bit c.mstatus 7) in
    let m2 = bit_and (bit_or m1 (bit 7)) (not64 (3 * 2 ^ 11)) in
    let m3 = if is_machine target then m2 else bit_and m2 (not64 (bit 17)) in
    (record { privilege = target; program_counter = c.mepc }, record c { mstatus = m3 })

unfoldable pub return_from_supervisor : CsrFile → TrapReturnState × CsrFile
return_from_supervisor c =
    let target = if has_bit c.mstatus 8 then supervisor else user in
    let m1 = put_bit c.mstatus 1 (has_bit c.mstatus 5) in
    let m2 = bit_and (bit_or m1 (bit 5)) (not64 (bit 8)) in
    (
      record { privilege = target; program_counter = c.sepc },
      record c { mstatus = bit_and m2 (not64 (bit 17)) },
    )

unfoldable pub trap_vector : CsrFile → PrivilegeMode → Bool → ℕ → ℕ
trap_vector c target interrupt cause =
    let vector = if is_machine target then c.mtvec else c.stvec in
    let base = bit_and vector (not64 3) in
    if interrupt && bit_and vector 3 == 1 then add64 base (u64 (4 * cause)) else base

unfoldable pub exception_delegated : CsrFile → PrivilegeMode → ExceptionCause → Bool
exception_delegated c source cause =
    if is_machine source
    then false
    else not (bit_and c.medeleg (cause_bit (exception_code cause)) == 0)

unfoldable pub supervisor_return_allowed : CsrFile → PrivilegeMode → Bool
supervisor_return_allowed c current =
    if ltb (privilege_rank current) (privilege_rank supervisor)
    then false
    else not (is_supervisor current) || not (has_bit c.mstatus 22)

unfoldable pub wait_for_interrupt_allowed : CsrFile → PrivilegeMode → Bool
wait_for_interrupt_allowed c current =
    if is_user current then false else is_machine current || not (has_bit c.mstatus 21)
