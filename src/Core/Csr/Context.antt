-- ===== src/Core/Csr/Context.antt =====
-- src/core/csr.cpp: the floating-point and vector contexts (mstatus.FS and mstatus.VS), the vector
-- state that instructions commit, interrupt levels and counters.
use homemade_risc_v_64_vecto.Base.{
  ℕ, ◌*◌, ◌^◌, bit_or, bit_and, not64, shr, u8, add64, Bool, not, ◌||◌, ltb, ◌==◌, if◌then◌else◌,
}
use homemade_risc_v_64_vecto.Core.Trap.{InterruptCause, interrupt_code}
use homemade_risc_v_64_vecto.Core.Csr.State.{
  CsrFile, bit, floating_exception_mask, implemented_interrupt_mask,
}

abbrev pub floating_state_enabled : CsrFile → Bool
floating_state_enabled c = not (bit_and (shr c.mstatus 13) 3 == 0)

abbrev pub vector_state_enabled : CsrFile → Bool
vector_state_enabled c = not (bit_and (shr c.mstatus 9) 3 == 0)

abbrev pub floating_rounding_mode : CsrFile → ℕ
floating_rounding_mode c = bit_and (shr c.fcsr 5) 7

abbrev pub floating_exception_flags : CsrFile → ℕ
floating_exception_flags c = bit_and c.fcsr floating_exception_mask

unfoldable pub mark_floating_state_dirty : CsrFile → CsrFile
mark_floating_state_dirty c =
    if not (floating_state_enabled c)
    then c
    else record c { mstatus = bit_or (bit_and c.mstatus (not64 (3 * 2 ^ 13))) (3 * 2 ^ 13) }

unfoldable pub mark_vector_state_dirty : CsrFile → CsrFile
mark_vector_state_dirty c =
    if not (vector_state_enabled c)
    then c
    else record c { mstatus = bit_or (bit_and c.mstatus (not64 (3 * 2 ^ 9))) (3 * 2 ^ 9) }

unfoldable pub accrue_floating_exception_flags : CsrFile → ℕ → CsrFile
accrue_floating_exception_flags c flags =
    let normalized = bit_and flags floating_exception_mask in
    if not (floating_state_enabled c) || normalized == 0
    then c
    else mark_floating_state_dirty (record c { fcsr = u8 (bit_or c.fcsr normalized) })

unfoldable pub set_vector_start_for_trap : CsrFile → ℕ → CsrFile
set_vector_start_for_trap c i = mark_vector_state_dirty (record c { vstart = bit_and i 0xFF })

unfoldable pub clear_vector_start_after_instruction : CsrFile → CsrFile
clear_vector_start_after_instruction c = mark_vector_state_dirty (record c { vstart = 0 })

unfoldable pub accrue_vector_saturation : CsrFile → Bool → CsrFile
accrue_vector_saturation c saturated =
    if not saturated then c else mark_vector_state_dirty (record c { vxsat = 1 })

unfoldable pub commit_vector_configuration : CsrFile → ℕ → ℕ → CsrFile
commit_vector_configuration c vtype vl =
    mark_vector_state_dirty (record c { vtype = vtype; vl = vl; vstart = 0 })

-- A shift by 64 or more is undefined, so the code tests first.
abbrev pub cause_bit : ℕ → ℕ
cause_bit cause = if ltb cause 64 then bit cause else 0

unfoldable pub set_interrupt_pending : CsrFile → InterruptCause → Bool → CsrFile
set_interrupt_pending c cause pending =
    let mask = bit_and (cause_bit (interrupt_code cause)) implemented_interrupt_mask in
    if pending
    then record c { mip = bit_or c.mip mask }
    else record c { mip = bit_and c.mip (not64 mask) }

unfoldable pub set_time : CsrFile → ℕ → CsrFile
set_time c value = record c { time = value }

unfoldable pub increment_cycle : CsrFile → CsrFile
increment_cycle c =
    if bit_and c.mcountinhibit 1 == 0 then record c { cycle = add64 c.cycle 1 } else c

unfoldable pub increment_instret : CsrFile → CsrFile
increment_instret c =
    if bit_and c.mcountinhibit 4 == 0 then record c { instret = add64 c.instret 1 } else c
