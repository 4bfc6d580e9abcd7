-- ===== src/Core/Csr/State.antt =====
-- src/core/csr.cpp: the state of the register file, its masks, and reset.
use homemade_risc_v_64_vecto.Base.{ℕ, ◌+◌, ◌*◌, ◌^◌, List, replicate, not64}

abbrev pub bit : ℕ → ℕ
bit i = 2 ^ i

-- `a | b | c` of the masks, as sums of distinct powers of two.
abbrev pub sstatus_write_mask : ℕ
sstatus_write_mask = bit 1 + bit 5 + bit 8 + 3 * 2 ^ 9 + 3 * 2 ^ 13 + bit 18 + bit 19

abbrev pub sstatus_read_mask : ℕ
sstatus_read_mask = sstatus_write_mask + 3 * 2 ^ 32 + bit 63

abbrev pub mstatus_write_mask : ℕ
mstatus_write_mask =
    sstatus_write_mask + bit 3 + bit 7 + 3 * 2 ^ 11 + bit 17 + bit 20 + bit 21 + bit 22

abbrev pub xlen_fields : ℕ
xlen_fields = 2 * 2 ^ 32 + 2 * 2 ^ 34

abbrev pub supervisor_interrupt_mask : ℕ
supervisor_interrupt_mask = bit 1 + bit 5 + bit 9

abbrev pub machine_interrupt_mask : ℕ
machine_interrupt_mask = bit 3 + bit 7 + bit 11

abbrev pub implemented_interrupt_mask : ℕ
implemented_interrupt_mask = supervisor_interrupt_mask + machine_interrupt_mask

abbrev pub software_writable_pending_mask : ℕ
software_writable_pending_mask = bit 1

abbrev pub implemented_counteren_mask : ℕ
implemented_counteren_mask = bit 0 + bit 1 + bit 2

abbrev pub implemented_hpm_counter_mask : ℕ
implemented_hpm_counter_mask = 0xFFFFFFF8

abbrev pub implemented_mcountinhibit_mask : ℕ
implemented_mcountinhibit_mask = bit 0 + bit 2 + implemented_hpm_counter_mask

abbrev pub delegatable_exception_mask : ℕ
delegatable_exception_mask =
    bit 0
    + bit 1
    + bit 2
    + bit 3
    + bit 4
    + bit 5
    + bit 6
    + bit 7
    + bit 8
    + bit 9
    + bit 12
    + bit 13
    + bit 15

-- RV64 with the letters A, C, D, F, I, M, S and U.
abbrev pub misa_value : ℕ
misa_value = 2 * 2 ^ 62 + bit 0 + bit 2 + bit 3 + bit 5 + bit 8 + bit 12 + bit 18 + bit 20

abbrev pub satp_mode_mask : ℕ
satp_mode_mask = 0xF * 2 ^ 60

abbrev pub satp_sv39_mode : ℕ
satp_sv39_mode = 8 * 2 ^ 60

abbrev pub epc_alignment_mask : ℕ
epc_alignment_mask = not64 1

abbrev pub vtype_vill : ℕ
vtype_vill = bit 63

abbrev pub vector_register_bytes : ℕ
vector_register_bytes = 32

-- src/core/floating_state.hpp: the five exception flags.
abbrev pub floating_exception_mask : ℕ
floating_exception_mask = 0x1F

pub record CsrFile : Type 0 where
  pub mstatus : ℕ
  pub fcsr : ℕ
  pub vstart : ℕ
  pub vxsat : ℕ
  pub vxrm : ℕ
  pub vl : ℕ
  pub vtype : ℕ
  pub medeleg : ℕ
  pub mideleg : ℕ
  pub mie : ℕ
  pub mtvec : ℕ
  pub mscratch : ℕ
  pub mepc : ℕ
  pub mcause : ℕ
  pub mtval : ℕ
  pub mip : ℕ
  pub mcounteren : ℕ
  pub mcountinhibit : ℕ
  pub pmpcfg : List ℕ
  pub pmpaddr : List ℕ
  pub mhpmcounter : List ℕ
  pub mhpmevent : List ℕ
  pub stvec : ℕ
  pub sscratch : ℕ
  pub sepc : ℕ
  pub scause : ℕ
  pub stval : ℕ
  pub scounteren : ℕ
  pub satp : ℕ
  pub cycle : ℕ
  pub time : ℕ
  pub instret : ℕ

abbrev pub reset_csrs : CsrFile
reset_csrs = record {
  mstatus = xlen_fields;
  fcsr = 0;
  vstart = 0;
  vxsat = 0;
  vxrm = 0;
  vl = 0;
  vtype = vtype_vill;
  medeleg = 0;
  mideleg = 0;
  mie = 0;
  mtvec = 0;
  mscratch = 0;
  mepc = 0;
  mcause = 0;
  mtval = 0;
  mip = 0;
  mcounteren = 0;
  mcountinhibit = 0;
  pmpcfg = replicate 8 0;
  pmpaddr = replicate 64 0;
  mhpmcounter = replicate 29 0;
  mhpmevent = replicate 29 0;
  stvec = 0;
  sscratch = 0;
  sepc = 0;
  scause = 0;
  stval = 0;
  scounteren = 0;
  satp = 0;
  cycle = 0;
  time = 0;
  instret = 0;
}
