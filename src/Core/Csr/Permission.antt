-- ===== src/Core/Csr/Permission.antt =====
-- src/core/csr.cpp: which addresses exist and who may access them.
use homemade_risc_v_64_vecto.Base.{
  ℕ, ◌-◌, ◌/◌, ◌%◌, bit_and, shr, Bool, true, false, not, ◌||◌, ◌&&◌, ltb, leb, ◌==◌, if◌then◌else◌,
  none, some,
}
use homemade_risc_v_64_vecto.Core.Trap.{PrivilegeMode, privilege_rank, is_user, is_supervisor}
use homemade_risc_v_64_vecto.Core.Csr.Names.{
  code_of, name_of, fflags, frm, fcsr, vstart, vxsat, vxrm, vcsr, satp, cycle, time, instret, vl,
  vtype, vlenb,
}
use homemade_risc_v_64_vecto.Core.Csr.State.{CsrFile, bit}
use homemade_risc_v_64_vecto.Core.Csr.Context.{floating_state_enabled, vector_state_enabled}

abbrev pub is_floating_csr : ℕ → Bool
is_floating_csr a = a == code_of fflags || a == code_of frm || a == code_of fcsr

abbrev pub is_vector_csr : ℕ → Bool
is_vector_csr a =
    a == code_of vstart
    || a == code_of vxsat
    || a == code_of vxrm
    || a == code_of vcsr
    || a == code_of vl
    || a == code_of vtype
    || a == code_of vlenb

-- RV64 has the even pmpcfg registers only.
abbrev pub is_rv64_pmpcfg : ℕ → Bool
is_rv64_pmpcfg a = leb 0x3A0 a && leb a 0x3AE && (a - 0x3A0) % 2 == 0

abbrev pub pmpcfg_index : ℕ → ℕ
pmpcfg_index a = (a - 0x3A0) / 2

abbrev pub is_pmpaddr : ℕ → Bool
is_pmpaddr a = leb 0x3B0 a && leb a 0x3EF

abbrev pub pmpaddr_index : ℕ → ℕ
pmpaddr_index a = a - 0x3B0

abbrev pub is_mhpmcounter : ℕ → Bool
is_mhpmcounter a = leb 0xB03 a && leb a 0xB1F

abbrev pub mhpmcounter_index : ℕ → ℕ
mhpmcounter_index a = a - 0xB03

abbrev pub is_mhpmevent : ℕ → Bool
is_mhpmevent a = leb 0x323 a && leb a 0x33F

abbrev pub mhpmevent_index : ℕ → ℕ
mhpmevent_index a = a - 0x323

abbrev pub is_named : ℕ → Bool
is_named a = elim (name_of a) [ none ↦ false | some n ↦ true ]

unfoldable pub exists : ℕ → Bool
exists a =
    if is_rv64_pmpcfg a || is_pmpaddr a || is_mhpmcounter a || is_mhpmevent a
    then true
    else is_named a

abbrev pub is_counter : ℕ → Bool
is_counter a = a == code_of cycle || a == code_of time || a == code_of instret

-- The two privilege bits of an address, and its read-only marking.
abbrev pub required_rank : ℕ → ℕ
required_rank a = bit_and (shr a 8) 3

abbrev pub is_read_only : ℕ → Bool
is_read_only a = bit_and a 0xC00 == 0xC00

-- mcounteren gates the counters below M-mode, and scounteren too in U-mode.
abbrev pub counter_denied : CsrFile → ℕ → PrivilegeMode → Bool
counter_denied c a p =
    let mask = bit (bit_and a 0x1F) in
    is_counter a
    && (is_supervisor p && bit_and c.mcounteren mask == 0
        || is_user p && (bit_and c.mcounteren mask == 0 || bit_and c.scounteren mask == 0))

-- mstatus.TVM traps S-mode's access to satp.
abbrev pub satp_denied : CsrFile → ℕ → PrivilegeMode → Bool
satp_denied c a p = a == code_of satp && is_supervisor p && not (bit_and c.mstatus (bit 20) == 0)

unfoldable pub access_allowed : CsrFile → ℕ → PrivilegeMode → Bool → Bool
access_allowed c a p write =
    if not (exists a)
    then false
    else if is_floating_csr a && not (floating_state_enabled c)
    then false
    else if is_vector_csr a && not (vector_state_enabled c)
    then false
    else if required_rank a == 2 || ltb (privilege_rank p) (required_rank a)
    then false
    else if write && is_read_only a
    then false
    else if counter_denied c a p
    then false
    else not (satp_denied c a p)
