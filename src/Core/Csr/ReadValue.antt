-- ===== src/Core/Csr/ReadValue.antt =====
-- src/core/csr.cpp, `read_value`: what each register reads as.
use homemade_risc_v_64_vecto.Base.{
  ℕ, bit_or, bit_and, not64, shl64, shr, ◌||◌, ◌==◌, if◌then◌else◌, none, some, get_or,
}
use homemade_risc_v_64_vecto.Core.Csr.Names.{
  CsrName, name_of, fflags, frm, fcsr, vstart, vxsat, vxrm, vcsr, sstatus, sie, stvec, scounteren,
  sscratch, sepc, scause, stval, sip, satp, cycle, time, instret, vl, vtype, vlenb, mstatus, misa,
  medeleg, mideleg, mie, mtvec, mcounteren, mcountinhibit, mscratch, mepc, mcause, mtval, mip,
  mtinst, mtval2, pmpcfg0, pmpaddr0, mcycle, minstret, mhpmcounter3, mhpmevent3, mvendorid, marchid,
  mimpid, mhartid,
}
use homemade_risc_v_64_vecto.Core.Csr.State.{
  CsrFile, bit, sstatus_read_mask, xlen_fields, supervisor_interrupt_mask, misa_value,
  vector_register_bytes,
}
use homemade_risc_v_64_vecto.Core.Csr.Context.{floating_rounding_mode, floating_exception_flags}
use homemade_risc_v_64_vecto.Core.Csr.Permission.{
  is_rv64_pmpcfg, pmpcfg_index, is_pmpaddr, pmpaddr_index, is_mhpmcounter, mhpmcounter_index,
  is_mhpmevent, mhpmevent_index,
}

-- SD summarises FS and VS; the XLEN fields are fixed.
unfoldable pub mstatus_value : CsrFile → ℕ
mstatus_value c =
    let v = bit_or (bit_and c.mstatus (not64 (bit 63))) xlen_fields in
    if bit_and (shr v 13) 3 == 3 || bit_and (shr v 9) 3 == 3 then bit_or v (bit 63) else v

unfoldable pub read_named : CsrFile → CsrName → ℕ
read_named c fflags = floating_exception_flags c
read_named c frm = floating_rounding_mode c
read_named c fcsr = c.fcsr
read_named c vstart = c.vstart
read_named c vxsat = c.vxsat
read_named c vxrm = c.vxrm
read_named c vcsr = bit_or (shl64 c.vxrm 1) c.vxsat
read_named c sstatus = bit_and (mstatus_value c) sstatus_read_mask
read_named c sie = bit_and (bit_and c.mie c.mideleg) supervisor_interrupt_mask
read_named c stvec = c.stvec
read_named c scounteren = c.scounteren
read_named c sscratch = c.sscratch
read_named c sepc = c.sepc
read_named c scause = c.scause
read_named c stval = c.stval
read_named c sip = bit_and (bit_and c.mip c.mideleg) supervisor_interrupt_mask
read_named c satp = c.satp
read_named c cycle = c.cycle
read_named c time = c.time
read_named c instret = c.instret
read_named c vl = c.vl
read_named c vtype = c.vtype
read_named c vlenb = vector_register_bytes
read_named c mstatus = mstatus_value c
read_named c misa = misa_value
read_named c medeleg = c.medeleg
read_named c mideleg = c.mideleg
read_named c mie = c.mie
read_named c mtvec = c.mtvec
read_named c mcounteren = c.mcounteren
read_named c mcountinhibit = c.mcountinhibit
read_named c mscratch = c.mscratch
read_named c mepc = c.mepc
read_named c mcause = c.mcause
read_named c mtval = c.mtval
read_named c mip = c.mip
read_named c mtinst = 0
read_named c mtval2 = 0
read_named c pmpcfg0 = 0
read_named c pmpaddr0 = 0
read_named c mcycle = c.cycle
read_named c minstret = c.instret
read_named c mhpmcounter3 = 0
read_named c mhpmevent3 = 0
read_named c mvendorid = 0
read_named c marchid = 0
read_named c mimpid = 0
read_named c mhartid = 0

unfoldable pub read_value : CsrFile → ℕ → ℕ
read_value c a =
    if is_rv64_pmpcfg a
    then get_or c.pmpcfg (pmpcfg_index a) 0
    else if is_pmpaddr a
    then get_or c.pmpaddr (pmpaddr_index a) 0
    else if is_mhpmcounter a
    then get_or c.mhpmcounter (mhpmcounter_index a) 0
    else if is_mhpmevent a
    then get_or c.mhpmevent (mhpmevent_index a) 0
    else elim (name_of a) [ none ↦ 0 | some n ↦ read_named c n ]
