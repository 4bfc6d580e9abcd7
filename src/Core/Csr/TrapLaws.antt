-- ===== src/Core/Csr/TrapLaws.antt =====
-- src/core/csr.cpp: trap entry and return move the status bits as a stack of depth two, and nothing
-- else.
use homemade_risc_v_64_vecto.Base.{
  ℕ, zero, suc, ◌+◌, ◌-◌, ◌*◌, ◌/◌, ◌^◌, ◌<◌, ◌≤◌, ◌≡◌, refl, ◌∙◌, bit_or, bit_and, not64, Bool,
  false, not, ◌||◌, ◌&&◌, ◌==◌, if◌then◌else◌, arith, ap,
}
use homemade_risc_v_64_vecto.Base.Bits.{bit_at, bit_at-lt, bit_at-zero, bit_at-bit_or, clear_bit0}
use homemade_risc_v_64_vecto.Base.Bits.Fields.{bit_at-set, bit_at-shl, pair_value}
use homemade_risc_v_64_vecto.Core.Csr.StatusBits.{
  has_bit-bit_at, bit_at-clear, bit_at-put, bit_at-clear_pair,
}
use homemade_risc_v_64_vecto.Core.Trap.{
  PrivilegeMode, user, supervisor, machine, privilege_rank, is_user, is_machine,
}
use homemade_risc_v_64_vecto.Core.Csr.State.{CsrFile, bit}
use homemade_risc_v_64_vecto.Core.Csr.Traps.{
  has_bit, put_bit, enter_machine_trap, enter_supervisor_trap, return_from_machine,
  return_from_supervisor, decode_privilege,
}

-- The two bits of a privilege mode's code.
rank_bits : (p : PrivilegeMode) (k : ℕ) → 2 ≤ k → bit_at (privilege_rank p) k ≡ 0
unfolding bit_at
rank_bits p zero h = absurd (omega arith)
rank_bits p (suc zero) h = absurd (omega arith)
rank_bits user (suc (suc k)) h = bit_at-zero k
rank_bits supervisor (suc (suc k)) h = bit_at-zero k
rank_bits machine (suc (suc k)) h = bit_at-zero k

rank_value :
    (p : PrivilegeMode)
    → bit_at (privilege_rank p) 0 + 2 * bit_at (privilege_rank p) 1 ≡ privilege_rank p
unfolding bit_at
rank_value user = refl
rank_value supervisor = refl
rank_value machine = refl

decode-rank : (p : PrivilegeMode) → decode_privilege (privilege_rank p) ≡ p
decode-rank user = refl
decode-rank supervisor = refl
decode-rank machine = refl

-- Entering a machine trap clears MIE, saves it in MPIE, stores the previous mode in MPP, and leaves
-- every other status bit.
pub enter_machine_trap_bits :
    (c : CsrFile) (previous : PrivilegeMode) (pc cause value k : ℕ)
    → k < 64
    → bit_at (enter_machine_trap c previous pc cause value).mstatus k ≡ (
        if k == 3
        then 0
        else if k == 7
        then bit_at c.mstatus 3
        else if k == 11 || k == 12
        then bit_at (privilege_rank previous) (k - 11)
        else bit_at c.mstatus k)
unfolding enter_machine_trap
enter_machine_trap_bits c previous pc cause value k h =
    let m1 = put_bit c.mstatus 7 (has_bit c.mstatus 3) in
    let m2 = bit_and m1 (not64 (bit 3)) in
    let m3 = bit_and m2 (not64 (3 * 2 ^ 11)) in
    ground (
      arith,
      bit_at-put c.mstatus 7 k (has_bit c.mstatus 3),
      has_bit-bit_at c.mstatus 3,
      bit_at-clear m1 3 k,
      bit_at-clear_pair m2 11 k,
      bit_at-bit_or m3 (privilege_rank previous * 2 ^ 11) k,
      bit_at-shl (privilege_rank previous) 11 k,
      rank_bits previous (k - 11),
      bit_at-lt c.mstatus 3,
      bit_at-lt c.mstatus k,
      bit_at-lt (privilege_rank previous) (k - 11),
    )

-- Entering a supervisor trap clears SIE, saves it in SPIE, stores in SPP whether the trap came from
-- above U-mode, and leaves every other status bit.
pub enter_supervisor_trap_bits :
    (c : CsrFile) (previous : PrivilegeMode) (pc cause value k : ℕ)
    → k < 64
    → bit_at (enter_supervisor_trap c previous pc cause value).mstatus k ≡ (
        if k == 1
        then 0
        else if k == 5
        then bit_at c.mstatus 1
        else if k == 8
        then (if is_user previous then 0 else 1)
        else bit_at c.mstatus k)
unfolding enter_supervisor_trap
enter_supervisor_trap_bits c previous pc cause value k h =
    let m1 = put_bit c.mstatus 5 (has_bit c.mstatus 1) in
    let m2 = bit_and m1 (not64 (bit 1)) in
    ground (
      arith,
      bit_at-put c.mstatus 5 k (has_bit c.mstatus 1),
      has_bit-bit_at c.mstatus 1,
      bit_at-clear m1 1 k,
      bit_at-put m2 8 k (not (is_user previous)),
      bit_at-lt c.mstatus 1,
    )

-- MRET takes the mode from MPP and the address from mepc, restores MIE from MPIE, sets MPIE, resets
-- MPP to U, clears MPRV unless it stays in M-mode, and leaves every other status bit.
pub return_from_machine_bits :
    (c : CsrFile) (k : ℕ)
    → k < 64
    → let r = return_from_machine c in
      (r.0.program_counter ≡ c.mepc)
      × (r.0.privilege ≡ decode_privilege (bit_at c.mstatus 11 + 2 * bit_at c.mstatus 12))
      × (bit_at r.1.mstatus k ≡ (
          if k == 3
          then bit_at c.mstatus 7
          else if k == 7
          then 1
          else if k == 11 || k == 12
          then 0
          else if k == 17 && not (is_machine r.0.privilege)
          then 0
          else bit_at c.mstatus k))
unfolding return_from_machine
return_from_machine_bits c k h =
    let m1 = put_bit c.mstatus 3 (has_bit c.mstatus 7) in
    let m2 = bit_and (bit_or m1 (bit 7)) (not64 (3 * 2 ^ 11)) in
    (
      refl,
      ap decode_privilege (pair_value c.mstatus 11),
      ground (
        arith,
        bit_at-put c.mstatus 3 k (has_bit c.mstatus 7),
        has_bit-bit_at c.mstatus 7,
        bit_at-set m1 7 k,
        bit_at-clear_pair (bit_or m1 (bit 7)) 11 k,
        bit_at-clear m2 17 k,
        bit_at-lt c.mstatus 7,
      ),
    )

-- SRET takes the mode from SPP and the address from sepc, restores SIE from SPIE, sets SPIE, clears
-- SPP and MPRV, and leaves every other status bit.
pub return_from_supervisor_bits :
    (c : CsrFile) (k : ℕ)
    → k < 64
    → let r = return_from_supervisor c in
      (r.0.program_counter ≡ c.sepc)
      × (r.0.privilege ≡ (if bit_at c.mstatus 8 == 1 then supervisor else user))
      × (bit_at r.1.mstatus k ≡ (
          if k == 1
          then bit_at c.mstatus 5
          else if k == 5
          then 1
          else if k == 8 || k == 17
          then 0
          else bit_at c.mstatus k))
unfolding return_from_supervisor
return_from_supervisor_bits c k h =
    let m1 = put_bit c.mstatus 1 (has_bit c.mstatus 5) in
    let m2 = bit_and (bit_or m1 (bit 5)) (not64 (bit 8)) in
    (
      refl,
      ap (λ (b : Bool). if b then supervisor else user) (has_bit-bit_at c.mstatus 8),
      ground (
        arith,
        bit_at-put c.mstatus 1 k (has_bit c.mstatus 5),
        has_bit-bit_at c.mstatus 5,
        bit_at-set m1 5 k,
        bit_at-clear (bit_or m1 (bit 5)) 8 k,
        bit_at-clear m2 17 k,
        bit_at-lt c.mstatus 5,
      ),
    )

enter_machine_trap-mepc :
    (c : CsrFile) (previous : PrivilegeMode) (pc cause value : ℕ)
    → pc < 2 ^ 64
    → (enter_machine_trap c previous pc cause value).mepc ≡ pc / 2 * 2
unfolding enter_machine_trap
enter_machine_trap-mepc c previous pc cause value h = clear_bit0 pc h

enter_supervisor_trap-sepc :
    (c : CsrFile) (previous : PrivilegeMode) (pc cause value : ℕ)
    → pc < 2 ^ 64
    → (enter_supervisor_trap c previous pc cause value).sepc ≡ pc / 2 * 2
unfolding enter_supervisor_trap
enter_supervisor_trap-sepc c previous pc cause value h = clear_bit0 pc h

-- A machine trap followed by MRET gives back the mode and the address, rounded down to even, and
-- every status bit but three: MPIE becomes 1, MPP becomes U, and MPRV is cleared unless the trap
-- came from M-mode.
pub machine_trap_round_trip :
    (c : CsrFile) (previous : PrivilegeMode) (pc cause value k : ℕ)
    → pc < 2 ^ 64
    → k < 64
    → let r = return_from_machine (enter_machine_trap c previous pc cause value) in
      (r.0.privilege ≡ previous)
      × (r.0.program_counter ≡ pc / 2 * 2)
      × (bit_at r.1.mstatus k ≡ (
          if k == 7
          then 1
          else if k == 11 || k == 12
          then 0
          else if k == 17 && not (is_machine previous)
          then 0
          else bit_at c.mstatus k))
machine_trap_round_trip c previous pc cause value k h p =
    let e = enter_machine_trap c previous pc cause value in
    let (at_pc, mode, status) = return_from_machine_bits e k p in
    let mpp : decode_privilege (bit_at e.mstatus 11 + 2 * bit_at e.mstatus 12) ≡ previous =
      rw
        (
          enter_machine_trap_bits c previous pc cause value 11 (omega arith),
          enter_machine_trap_bits c previous pc cause value 12 (omega arith),
          rank_value previous,
        )
        (decode-rank previous) in
    let same : (return_from_machine e).0.privilege ≡ previous = mode ∙ mpp in
    (
      same,
      at_pc ∙ enter_machine_trap-mepc c previous pc cause value h,
      ground (
        arith,
        status,
        same,
        enter_machine_trap_bits c previous pc cause value k p,
        enter_machine_trap_bits c previous pc cause value 7,
      ),
    )

-- A supervisor trap from S-mode or U-mode followed by SRET gives back the mode and the address, rounded
-- down to even, and every status bit but three: SPIE becomes 1, and SPP and MPRV are cleared.
pub supervisor_trap_round_trip :
    (c : CsrFile) (previous : PrivilegeMode) (pc cause value k : ℕ)
    → is_machine previous ≡ false
    → pc < 2 ^ 64
    → k < 64
    → let r = return_from_supervisor (enter_supervisor_trap c previous pc cause value) in
      (r.0.privilege ≡ previous)
      × (r.0.program_counter ≡ pc / 2 * 2)
      × (bit_at r.1.mstatus k
          ≡ (if k == 5 then 1 else if k == 8 || k == 17 then 0 else bit_at c.mstatus k))
supervisor_trap_round_trip c previous pc cause value k low h p =
    let e = enter_supervisor_trap c previous pc cause value in
    let (at_pc, mode, status) = return_from_supervisor_bits e k p in
    (
      ground (arith, mode, enter_supervisor_trap_bits c previous pc cause value 8),
      at_pc ∙ enter_supervisor_trap-sepc c previous pc cause value h,
      ground (
        arith,
        status,
        enter_supervisor_trap_bits c previous pc cause value k p,
        enter_supervisor_trap_bits c previous pc cause value 5,
      ),
    )
