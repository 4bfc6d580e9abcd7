-- ===== src/Core/Csr/WriteValue.antt =====
-- src/core/csr.cpp, `write_value`: what a write to each register changes.
use homemade_risc_v_64_vecto.Base.{
  ℕ, ◌+◌, ◌*◌, ◌^◌, bit_or, bit_and, not64, shl64, shr, u8, ◌||◌, leb, ◌==◌, if◌then◌else◌, none,
  some, set,
}
use homemade_risc_v_64_vecto.Core.Csr.Names.{
  CsrName, name_of, fflags, frm, fcsr, vstart, vxsat, vxrm, vcsr, sstatus, sie, stvec, scounteren,
  sscratch, sepc, scause, stval, sip, satp, cycle, time, instret, vl, vtype, vlenb, mstatus, misa,
  medeleg, mideleg, mie, mtvec, mcounteren, mcountinhibit, mscratch, mepc, mcause, mtval, mip,
  mtinst, mtval2, pmpcfg0, pmpaddr0, mcycle, minstret, mhpmcounter3, mhpmevent3, mvendorid, marchid,
  mimpid, mhartid,
}
use homemade_risc_v_64_vecto.Core.Csr.State.{
  CsrFile, sstatus_write_mask, mstatus_write_mask, xlen_fields, supervisor_interrupt_mask,
  implemented_interrupt_mask, software_writable_pending_mask, implemented_counteren_mask,
  implemented_hpm_counter_mask, implemented_mcountinhibit_mask, delegatable_exception_mask,
  satp_mode_mask, satp_sv39_mode, epc_alignment_mask, floating_exception_mask,
}
use homemade_risc_v_64_vecto.Core.Csr.Context.{mark_floating_state_dirty, mark_vector_state_dirty}
use homemade_risc_v_64_vecto.Core.Csr.Permission.{
  is_rv64_pmpcfg, pmpcfg_index, is_pmpaddr, pmpaddr_index, is_mhpmcounter, mhpmcounter_index,
  is_mhpmevent, mhpmevent_index,
}

-- `(old & ~mask) | (value & mask)`.
abbrev pub masked_update : ℕ → ℕ → ℕ → ℕ
masked_update old mask v = bit_or (bit_and old (not64 mask)) (bit_and v mask)

-- A trap vector's mode is 0 or 1.
unfoldable pub legal_tvec : ℕ → ℕ
legal_tvec v = bit_or (bit_and v (not64 3)) (if leb (bit_and v 3) 1 then bit_and v 3 else 0)

-- The reserved value 2 of MPP is replaced by 3.
unfoldable pub legal_mstatus : ℕ → ℕ
legal_mstatus m =
    bit_or
      (if bit_and (shr m 11) 3 == 2
        then bit_or (bit_and m (not64 (3 * 2 ^ 11))) (3 * 2 ^ 11)
        else m)
      xlen_fields

unfoldable pub write_named : CsrFile → CsrName → ℕ → CsrFile
write_named c fflags v =
    mark_floating_state_dirty
      (record c { fcsr = u8 (bit_or (bit_and c.fcsr 0xE0) (bit_and v floating_exception_mask)) })
write_named c frm v = mark_floating_state_dirty (record c {
  fcsr = u8 (bit_or (bit_and c.fcsr floating_exception_mask) (shl64 (bit_and v 7) 5));
})
write_named c fcsr v = mark_floating_state_dirty (record c { fcsr = bit_and v 0xFF })
write_named c vstart v = mark_vector_state_dirty (record c { vstart = bit_and v 0xFF })
write_named c vxsat v = mark_vector_state_dirty (record c { vxsat = bit_and v 1 })
write_named c vxrm v = mark_vector_state_dirty (record c { vxrm = bit_and v 3 })
write_named c vcsr v =
    mark_vector_state_dirty (record c { vxsat = bit_and v 1; vxrm = bit_and (shr v 1) 3 })
write_named c sstatus v = record c { mstatus = masked_update c.mstatus sstatus_write_mask v }
write_named c sie v = record c {
  mie = masked_update c.mie (bit_and c.mideleg supervisor_interrupt_mask) v;
}
write_named c stvec v = record c { stvec = legal_tvec v }
write_named c scounteren v = record c { scounteren = bit_and v 7 }
write_named c sscratch v = record c { sscratch = v }
write_named c sepc v = record c { sepc = bit_and v epc_alignment_mask }
write_named c scause v = record c { scause = v }
write_named c stval v = record c { stval = v }
write_named c sip v = record c {
  mip = masked_update c.mip (bit_and c.mideleg software_writable_pending_mask) v;
}
write_named c satp v =
    let mode = bit_and v satp_mode_mask in
    if mode == 0 || mode == satp_sv39_mode then record c { satp = v } else c
write_named c cycle v = c
write_named c time v = c
write_named c instret v = c
write_named c vl v = c
write_named c vtype v = c
write_named c vlenb v = c
write_named c mstatus v = record c {
  mstatus = legal_mstatus (masked_update c.mstatus mstatus_write_mask v);
}
write_named c misa v = c
write_named c medeleg v = record c { medeleg = bit_and v delegatable_exception_mask }
write_named c mideleg v = record c { mideleg = bit_and v supervisor_interrupt_mask }
write_named c mie v = record c { mie = bit_and v implemented_interrupt_mask }
write_named c mtvec v = record c { mtvec = legal_tvec v }
write_named c mcounteren v = record c {
  mcounteren = bit_and v (implemented_counteren_mask + implemented_hpm_counter_mask);
}
write_named c mcountinhibit v = record c {
  mcountinhibit = bit_and v implemented_mcountinhibit_mask;
}
write_named c mscratch v = record c { mscratch = v }
write_named c mepc v = record c { mepc = bit_and v epc_alignment_mask }
write_named c mcause v = record c { mcause = v }
write_named c mtval v = record c { mtval = v }
write_named c mip v = record c { mip = masked_update c.mip software_writable_pending_mask v }
write_named c mtinst v = c
write_named c mtval2 v = c
write_named c pmpcfg0 v = c
write_named c pmpaddr0 v = c
write_named c mcycle v = record c { cycle = v }
write_named c minstret v = record c { instret = v }
write_named c mhpmcounter3 v = c
write_named c mhpmevent3 v = c
write_named c mvendorid v = c
write_named c marchid v = c
write_named c mimpid v = c
write_named c mhartid v = c

unfoldable pub write_value : CsrFile → ℕ → ℕ → CsrFile
write_value c a v =
    if is_rv64_pmpcfg a
    then record c { pmpcfg = set c.pmpcfg (pmpcfg_index a) v }
    else if is_pmpaddr a
    then record c { pmpaddr = set c.pmpaddr (pmpaddr_index a) v }
    else if is_mhpmcounter a
    then record c { mhpmcounter = set c.mhpmcounter (mhpmcounter_index a) v }
    else if is_mhpmevent a
    then record c { mhpmevent = set c.mhpmevent (mhpmevent_index a) v }
    else elim (name_of a) [ none ↦ c | some n ↦ write_named c n v ]
