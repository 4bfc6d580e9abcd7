-- ===== src/Core/Csr/Access.antt =====
-- src/core/csr.cpp, `access` and `peek`: the entry points of the CSR instructions.
use homemade_risc_v_64_vecto.Base.{
  ℕ, bit_or, bit_and, not64, Bool, true, false, not, ◌||◌, ◌&&◌, if◌then◌else◌,
}
use homemade_risc_v_64_vecto.Core.Trap.{PrivilegeMode}
use homemade_risc_v_64_vecto.Core.Csr.State.{CsrFile}
use homemade_risc_v_64_vecto.Core.Csr.Permission.{exists, access_allowed}
use homemade_risc_v_64_vecto.Core.Csr.ReadValue.{read_value}
use homemade_risc_v_64_vecto.Core.Csr.WriteValue.{write_value}

pub data CsrModifyOperation : Type 0 where
  replace set_bits clear_bits : CsrModifyOperation

pub record CsrAccessRequest : Type 0 where
  pub address : ℕ
  pub privilege : PrivilegeMode
  pub reads : Bool
  pub writes : Bool
  pub operation : CsrModifyOperation
  pub operand : ℕ

pub record CsrAccessResult : Type 0 where
  pub succeeded : Bool
  pub value : ℕ

abbrev pub needs_old_value : CsrModifyOperation → Bool
needs_old_value replace = false
needs_old_value _ = true

abbrev pub desired_value : CsrModifyOperation → ℕ → ℕ → ℕ
desired_value replace previous operand = operand
desired_value set_bits previous operand = bit_or previous operand
desired_value clear_bits previous operand = bit_and previous (not64 operand)

unfoldable pub access : CsrFile → CsrAccessRequest → CsrAccessResult × CsrFile
access c r =
    if not (access_allowed c r.address r.privilege r.writes)
    then (record { succeeded = false; value = 0 }, c)
    else let previous =
        if r.reads || r.writes && needs_old_value r.operation then read_value c r.address else 0 in
      (
        record { succeeded = true; value = if r.reads then previous else 0 },
        if r.writes
            then write_value c r.address (desired_value r.operation previous r.operand)
            else c,
      )

unfoldable pub peek : CsrFile → ℕ → ℕ
peek c a = if exists a then read_value c a else 0
