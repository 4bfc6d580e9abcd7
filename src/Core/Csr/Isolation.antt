-- ===== src/Core/Csr/Isolation.antt =====
-- src/core/csr.cpp: no access from below M-mode reaches machine state.
use homemade_risc_v_64_vecto.Base.{
  ℕ, ◌/◌, ◌%◌, ◌^◌, ◌<◌, ◌≤◌, ◌≡◌, refl, sym, subst, ◌⊎◌, inl, inr, bit_and, Bool, true, false, not,
  ◌||◌, ◌&&◌, ◌==◌, if◌then◌else◌, arith, ap, Option, none, some, Bool-cases, ==_iff,
}
use homemade_risc_v_64_vecto.Base.Bits.{
  bit_at, bit_at-bit_and, bit_and_mask, bit_and_comm, bit_and-le,
}
use homemade_risc_v_64_vecto.Base.Bits.Fields.{bit_at-masked_update, bit_at_lem}
use homemade_risc_v_64_vecto.Core.Trap.{PrivilegeMode, privilege_rank, is_machine}
use homemade_risc_v_64_vecto.Core.Csr.Names.{
  CsrName, code_of, name_of, fflags, frm, fcsr, vstart, vxsat, vxrm, vcsr, sstatus, sie, stvec,
  scounteren, sscratch, sepc, scause, stval, sip, satp, cycle, time, instret, vl, vtype, vlenb,
  mstatus, misa, medeleg, mideleg, mie, mtvec, mcounteren, mcountinhibit, mscratch, mepc, mcause,
  mtval, mip, mtinst, mtval2, pmpcfg0, pmpaddr0, mcycle, minstret, mhpmcounter3, mhpmevent3,
  mvendorid, marchid, mimpid, mhartid,
}
use homemade_risc_v_64_vecto.Core.Csr.State.{
  CsrFile, sstatus_write_mask, supervisor_interrupt_mask, software_writable_pending_mask,
  satp_mode_mask, satp_sv39_mode,
}
use homemade_risc_v_64_vecto.Core.Csr.Context.{
  floating_state_enabled, vector_state_enabled, mark_floating_state_dirty, mark_vector_state_dirty,
}
use homemade_risc_v_64_vecto.Core.Csr.Permission.{
  access_allowed, required_rank, is_rv64_pmpcfg, is_pmpaddr, is_mhpmcounter, is_mhpmevent,
}
use homemade_risc_v_64_vecto.Core.Csr.WriteValue.{write_named, write_value, masked_update}
use homemade_risc_v_64_vecto.Core.Csr.Access.{
  CsrAccessRequest, access, needs_old_value, desired_value,
}
use homemade_risc_v_64_vecto.Core.Csr.ReadValue.{read_value}
use homemade_risc_v_64_vecto.Core.Csr.StatusBits.{bit_at-fill_pair}
use homemade_risc_v_64_vecto.Core.Csr.AccessLaws.{name_of-code, access_allowed_sound}

-- The registers of M-mode that stand alone.
abbrev pub SameMachine : CsrFile → CsrFile → Type 0
SameMachine c d =
    (d.medeleg ≡ c.medeleg)
    × (d.mideleg ≡ c.mideleg)
    × (d.mtvec ≡ c.mtvec)
    × (d.mscratch ≡ c.mscratch)
    × (d.mepc ≡ c.mepc)
    × (d.mcause ≡ c.mcause)
    × (d.mtval ≡ c.mtval)
    × (d.mcounteren ≡ c.mcounteren)
    × (d.mcountinhibit ≡ c.mcountinhibit)
    × (d.pmpcfg ≡ c.pmpcfg)
    × (d.pmpaddr ≡ c.pmpaddr)
    × (d.mhpmcounter ≡ c.mhpmcounter)
    × (d.mhpmevent ≡ c.mhpmevent)

-- A bit of mstatus that only M-mode may change: MIE, MPIE, MPP, MPRV, TVM, TW, TSR.
abbrev pub is_machine_bit : ℕ → Bool
is_machine_bit k =
    k == 3 || k == 7 || k == 11 || k == 12 || k == 17 || k == 20 || k == 21 || k == 22

-- What a change from below M-mode keeps: the machine registers, the machine bits of mstatus, and
-- the enable and pending bits of interrupts that are not delegated.
abbrev pub KeepsMachine : CsrFile → CsrFile → Type 0
KeepsMachine c d =
    SameMachine c d
    × ((k : ℕ) → is_machine_bit k ≡ true → bit_at d.mstatus k ≡ bit_at c.mstatus k)
    × ((k : ℕ)
        → k < 64
        → bit_at c.mideleg k ≡ 0
        → (bit_at d.mie k ≡ bit_at c.mie k) × (bit_at d.mip k ≡ bit_at c.mip k))

required_rank_lem : (a : ℕ) → required_rank a ≡ a / 256 % 4
required_rank_lem a = bit_and_mask 2 (a / 2 ^ 8)

same_machine : (c : CsrFile) → SameMachine c c
same_machine c = (refl, refl, refl, refl, refl, refl, refl, refl, refl, refl, refl, refl, refl)

pub KeepsMachine-refl : (c : CsrFile) → KeepsMachine c c
KeepsMachine-refl c = (same_machine c, λ k h. refl, λ k h e. (refl, refl))

either :
    (c : CsrFile) (b : Bool) (d e : CsrFile)
    → KeepsMachine c d
    → KeepsMachine c e
    → KeepsMachine c (if b then d else e)
either c true d e h k = h
either c false d e h k = k

machine_bit-lt : (k : ℕ) → is_machine_bit k ≡ true → k < 64
machine_bit-lt k h = ground arith

dirty_floating : (c d : CsrFile) → KeepsMachine c d → KeepsMachine c (mark_floating_state_dirty d)
unfolding mark_floating_state_dirty
dirty_floating c d h = either c (not (floating_state_enabled d)) d _ h (
  h.0,
  λ k q.
      ground (arith, bit_at-fill_pair d.mstatus 13 k (omega arith) (machine_bit-lt k q), h.1 k q),
  h.2,
)

dirty_vector : (c d : CsrFile) → KeepsMachine c d → KeepsMachine c (mark_vector_state_dirty d)
unfolding mark_vector_state_dirty
dirty_vector c d h = either c (not (vector_state_enabled d)) d _ h (
  h.0,
  λ k q. ground (arith, bit_at-fill_pair d.mstatus 9 k (omega arith) (machine_bit-lt k q), h.1 k q),
  h.2,
)

mask_at : (k : ℕ) → (sstatus_write_mask / 2 ^ k % 2 == 0) ≡ true → bit_at sstatus_write_mask k ≡ 0
mask_at k h = omega (arith, bit_at_lem sstatus_write_mask k, (==_iff _ _).0 h)

-- None of the machine bits is in the mask of sstatus.
machine_bit_masked : (k : ℕ) → is_machine_bit k ≡ true → bit_at sstatus_write_mask k ≡ 0
machine_bit_masked k h = ground (
  arith,
  mask_at 3 refl,
  mask_at 7 refl,
  mask_at 11 refl,
  mask_at 12 refl,
  mask_at 17 refl,
  mask_at 20 refl,
  mask_at 21 refl,
  mask_at 22 refl,
)

sstatus_update :
    (c : CsrFile) (v k : ℕ)
    → is_machine_bit k ≡ true
    → bit_at (masked_update c.mstatus sstatus_write_mask v) k ≡ bit_at c.mstatus k
sstatus_update c v k q = ground (
  arith,
  bit_at-masked_update c.mstatus sstatus_write_mask v k (omega arith) (machine_bit-lt k q),
  machine_bit_masked k q,
)

and_lt : (x mask : ℕ) → mask < 2 ^ 64 → bit_and x mask < 2 ^ 64
and_lt x mask h = omega (arith, ap (λ (t : ℕ). t) (bit_and_comm x mask), bit_and-le mask x)

undelegated :
    (old delegated mask v k : ℕ)
    → bit_and delegated mask < 2 ^ 64
    → k < 64
    → bit_at delegated k ≡ 0
    → bit_at (masked_update old (bit_and delegated mask) v) k ≡ bit_at old k
undelegated old delegated mask v k w h e = ground (
  arith,
  bit_at-masked_update old (bit_and delegated mask) v k w h,
  bit_at-bit_and delegated mask k,
)

write_named-KeepsMachine :
    (c : CsrFile) (n : CsrName) (v : ℕ)
    → required_rank (code_of n) ≤ 1
    → KeepsMachine c (write_named c n v)
unfolding write_named
write_named-KeepsMachine c fflags v h = dirty_floating c _ (KeepsMachine-refl c)
write_named-KeepsMachine c frm v h = dirty_floating c _ (KeepsMachine-refl c)
write_named-KeepsMachine c fcsr v h = dirty_floating c _ (KeepsMachine-refl c)
write_named-KeepsMachine c vstart v h = dirty_vector c _ (KeepsMachine-refl c)
write_named-KeepsMachine c vxsat v h = dirty_vector c _ (KeepsMachine-refl c)
write_named-KeepsMachine c vxrm v h = dirty_vector c _ (KeepsMachine-refl c)
write_named-KeepsMachine c vcsr v h = dirty_vector c _ (KeepsMachine-refl c)
write_named-KeepsMachine c sstatus v h =
    (same_machine c, λ k q. sstatus_update c v k q, λ k p e. (refl, refl))
write_named-KeepsMachine c sie v h = (
  same_machine c,
  λ k q. refl,
  λ k p e. (
    undelegated c.mie c.mideleg supervisor_interrupt_mask v k (and_lt c.mideleg 546 (omega arith)) p
        e,
    refl,
  ),
)
write_named-KeepsMachine c stvec v h = KeepsMachine-refl c
write_named-KeepsMachine c scounteren v h = KeepsMachine-refl c
write_named-KeepsMachine c sscratch v h = KeepsMachine-refl c
write_named-KeepsMachine c sepc v h = KeepsMachine-refl c
write_named-KeepsMachine c scause v h = KeepsMachine-refl c
write_named-KeepsMachine c stval v h = KeepsMachine-refl c
write_named-KeepsMachine c sip v h = (
  same_machine c,
  λ k q. refl,
  λ k p e. (
    refl,
    undelegated c.mip c.mideleg software_writable_pending_mask v k
        (and_lt c.mideleg 2 (omega arith)) p e,
  ),
)
write_named-KeepsMachine c satp v h =
    let mode = bit_and v satp_mode_mask in
    either c (mode == 0 || mode == satp_sv39_mode) (record c { satp = v }) c (KeepsMachine-refl c)
      (KeepsMachine-refl c)
write_named-KeepsMachine c cycle v h = KeepsMachine-refl c
write_named-KeepsMachine c time v h = KeepsMachine-refl c
write_named-KeepsMachine c instret v h = KeepsMachine-refl c
write_named-KeepsMachine c vl v h = KeepsMachine-refl c
write_named-KeepsMachine c vtype v h = KeepsMachine-refl c
write_named-KeepsMachine c vlenb v h = KeepsMachine-refl c
write_named-KeepsMachine c mstatus v h = absurd (omega arith)
write_named-KeepsMachine c misa v h = absurd (omega arith)
write_named-KeepsMachine c medeleg v h = absurd (omega arith)
write_named-KeepsMachine c mideleg v h = absurd (omega arith)
write_named-KeepsMachine c mie v h = absurd (omega arith)
write_named-KeepsMachine c mtvec v h = absurd (omega arith)
write_named-KeepsMachine c mcounteren v h = absurd (omega arith)
write_named-KeepsMachine c mcountinhibit v h = absurd (omega arith)
write_named-KeepsMachine c mscratch v h = absurd (omega arith)
write_named-KeepsMachine c mepc v h = absurd (omega arith)
write_named-KeepsMachine c mcause v h = absurd (omega arith)
write_named-KeepsMachine c mtval v h = absurd (omega arith)
write_named-KeepsMachine c mip v h = absurd (omega arith)
write_named-KeepsMachine c mtinst v h = absurd (omega arith)
write_named-KeepsMachine c mtval2 v h = absurd (omega arith)
write_named-KeepsMachine c pmpcfg0 v h = absurd (omega arith)
write_named-KeepsMachine c pmpaddr0 v h = absurd (omega arith)
write_named-KeepsMachine c mcycle v h = absurd (omega arith)
write_named-KeepsMachine c minstret v h = absurd (omega arith)
write_named-KeepsMachine c mhpmcounter3 v h = absurd (omega arith)
write_named-KeepsMachine c mhpmevent3 v h = absurd (omega arith)
write_named-KeepsMachine c mvendorid v h = absurd (omega arith)
write_named-KeepsMachine c marchid v h = absurd (omega arith)
write_named-KeepsMachine c mimpid v h = absurd (omega arith)
write_named-KeepsMachine c mhartid v h = absurd (omega arith)

low_rank_plain :
    (a : ℕ)
    → required_rank a ≤ 1
    → is_rv64_pmpcfg a || is_pmpaddr a || is_mhpmcounter a || is_mhpmevent a ≡ false
low_rank_plain a h = ground (arith, required_rank_lem a)

no_indexed_case :
    (a b d e : Bool) (w x y z rest : CsrFile)
    → a || b || d || e ≡ false
    → (if a then w else if b then x else if d then y else if e then z else rest) ≡ rest
no_indexed_case false false false false w x y z rest h = refl
no_indexed_case false false false true w x y z rest h = cc
no_indexed_case false false true e w x y z rest h = cc
no_indexed_case false true d e w x y z rest h = cc
no_indexed_case true b d e w x y z rest h = cc

abbrev write_switch : CsrFile → ℕ → Option CsrName → CsrFile
write_switch c v o = elim o [ none ↦ c | some n ↦ write_named c n v ]

write_value-plain :
    (c : CsrFile) (a v : ℕ)
    → is_rv64_pmpcfg a || is_pmpaddr a || is_mhpmcounter a || is_mhpmevent a ≡ false
    → write_value c a v ≡ write_switch c v (name_of a)
unfolding write_value
write_value-plain c a v h =
    no_indexed_case (is_rv64_pmpcfg a) (is_pmpaddr a) (is_mhpmcounter a) (is_mhpmevent a) _ _ _ _ _
      h

write_switch-KeepsMachine :
    (c : CsrFile) (v : ℕ) (o : Option CsrName)
    → ((n : CsrName) → o ≡ some n → required_rank (code_of n) ≤ 1)
    → KeepsMachine c (write_switch c v o)
write_switch-KeepsMachine c v none h = KeepsMachine-refl c
write_switch-KeepsMachine c v (some n) h = write_named-KeepsMachine c n v (h n refl)

write_value-KeepsMachine :
    (c : CsrFile) (a v : ℕ) → required_rank a ≤ 1 → KeepsMachine c (write_value c a v)
write_value-KeepsMachine c a v h =
    subst (KeepsMachine c) (sym (write_value-plain c a v (low_rank_plain a h))) (
      write_switch-KeepsMachine c v (name_of a)
        λ n e. subst (λ (x : ℕ). required_rank x ≤ 1) (name_of-code a e) h)

-- An access leaves the registers, or is allowed and writes one value.
access_cases :
    (c : CsrFile) (r : CsrAccessRequest)
    → ((access c r).1 ≡ c)
      ⊎ ((access_allowed c r.address r.privilege r.writes ≡ true)
          × ((w : ℕ) × ((access c r).1 ≡ write_value c r.address w)))
unfolding access
access_cases c r = elim (Bool-cases (access_allowed c r.address r.privilege r.writes)) [
  | inr denied ↦ inl (ground arith)
  | inl allowed ↦ elim (Bool-cases r.writes) [
    | inr quiet ↦ inl (ground arith)
    | inl writing ↦
        let previous =
          if r.reads || r.writes && needs_old_value r.operation
          then read_value c r.address
          else 0 in
        inr (allowed, (desired_value r.operation previous r.operand, ground arith))
  ]
]

low_rank : (p : PrivilegeMode) (n : ℕ) → is_machine p ≡ false → n ≤ privilege_rank p → n ≤ 1
low_rank p n h k = ground arith

-- Isolation: whatever S-mode or U-mode does through CSR instructions, the machine registers, the
-- machine bits of mstatus, and the enable and pending bits of interrupts that are not delegated to
-- S-mode stay as they are.
pub access-KeepsMachine :
    (c : CsrFile) (r : CsrAccessRequest)
    → is_machine r.privilege ≡ false
    → KeepsMachine c (access c r).1
access-KeepsMachine c r low = elim (access_cases c r) [
  | inl e ↦ subst (KeepsMachine c) (sym e) (KeepsMachine-refl c)
  | inr (allowed, (w, e)) ↦
      let sound = access_allowed_sound c r.address r.privilege r.writes allowed in
      subst (KeepsMachine c) (sym e) (
        write_value-KeepsMachine c r.address w
          (low_rank r.privilege (required_rank r.address) low sound.1))
]
