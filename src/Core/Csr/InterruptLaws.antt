-- ===== src/Core/Csr/InterruptLaws.antt =====
-- src/core/csr.cpp, `select_pending_interrupt`: which interrupt is taken, and where.
use homemade_risc_v_64_vecto.Base.{
  ℕ, ◌<◌, ◌≤◌, ◌≡◌, ◌⊎◌, refl, ◌∙◌, bit_and, Bool, true, false, not, ◌||◌, ◌&&◌, ◌==◌,
  if◌then◌else◌, ltb, arith, none, some,
}
use homemade_risc_v_64_vecto.Base.Bits.{bit_at, bit_at-lt, bit_at-bit_and}
use homemade_risc_v_64_vecto.Core.Csr.StatusBits.{has_bit-bit_at, bit_at-put}
use homemade_risc_v_64_vecto.Core.Trap.{
  PrivilegeMode, user, supervisor, machine, privilege_rank, is_user, is_machine, InterruptCause,
  interrupt_code, machine_external, machine_software, machine_timer, supervisor_external,
  supervisor_software, supervisor_timer,
}
use homemade_risc_v_64_vecto.Core.Csr.State.{CsrFile, bit, implemented_interrupt_mask}
use homemade_risc_v_64_vecto.Core.Csr.Context.{cause_bit, set_interrupt_pending}
use homemade_risc_v_64_vecto.Core.Csr.Traps.{
  deliverable, select_from, select_pending_interrupt, PendingInterrupt,
}

-- The order of the privileged specification, most urgent first.
abbrev pub urgency : InterruptCause → ℕ
urgency machine_external = 0
urgency machine_software = 1
urgency machine_timer = 2
urgency supervisor_external = 3
urgency supervisor_software = 4
urgency supervisor_timer = 5

-- The interrupt that is taken is deliverable, to the target that it names, and each other interrupt
-- is not deliverable or not more urgent.
pub select_most_urgent :
    (c : CsrFile) (current : PrivilegeMode) (other : InterruptCause) (r : PendingInterrupt)
    → select_pending_interrupt c current ≡ some r
    → (deliverable c current r.cause ≡ some r.target)
      × ((deliverable c current other ≡ none) ⊎ (urgency r.cause ≤ urgency other))
unfolding select_pending_interrupt select_from
select_most_urgent c current machine_external r e = (ground arith, ground arith)
select_most_urgent c current machine_software r e = (ground arith, ground arith)
select_most_urgent c current machine_timer r e = (ground arith, ground arith)
select_most_urgent c current supervisor_external r e = (ground arith, ground arith)
select_most_urgent c current supervisor_software r e = (ground arith, ground arith)
select_most_urgent c current supervisor_timer r e = (ground arith, ground arith)

-- If no interrupt is taken, none is deliverable.
pub select_none :
    (c : CsrFile) (current : PrivilegeMode) (other : InterruptCause)
    → select_pending_interrupt c current ≡ none
    → deliverable c current other ≡ none
unfolding select_pending_interrupt select_from
select_none c current machine_external e = ground arith
select_none c current machine_software e = ground arith
select_none c current machine_timer e = ground arith
select_none c current supervisor_external e = ground arith
select_none c current supervisor_software e = ground arith
select_none c current supervisor_timer e = ground arith

-- The test of a mask of one bit.
mask_test : (m n : ℕ) → (bit_and m (bit n) == 0) ≡ not (bit_at m n == 1)
mask_test m n = ground (arith, has_bit-bit_at m n)

-- A pending and enabled cause, read through its mask.
candidate_test :
    (mip mie n : ℕ)
    → bit_at implemented_interrupt_mask n ≡ 1
    → (bit_and (bit_and (bit_and mip mie) implemented_interrupt_mask) (bit n) == 0)
      ≡ not (bit_at mip n == 1 && bit_at mie n == 1)
candidate_test mip mie n h =
    mask_test (bit_and (bit_and mip mie) implemented_interrupt_mask) n
    ∙ ground (
      arith,
      bit_at-bit_and (bit_and mip mie) implemented_interrupt_mask n,
      bit_at-bit_and mip mie n,
      bit_at-lt mip n,
      bit_at-lt mie n,
    )

interrupt_code-lt : (cause : InterruptCause) → interrupt_code cause < 64
interrupt_code-lt supervisor_software = omega arith
interrupt_code-lt machine_software = omega arith
interrupt_code-lt supervisor_timer = omega arith
interrupt_code-lt machine_timer = omega arith
interrupt_code-lt supervisor_external = omega arith
interrupt_code-lt machine_external = omega arith

cause_bit_lem : (n : ℕ) → n < 64 → cause_bit n ≡ bit n
cause_bit_lem n h = ground arith

implemented :
    (cause : InterruptCause) → bit_at implemented_interrupt_mask (interrupt_code cause) ≡ 1
unfolding bit_at
implemented supervisor_software = refl
implemented machine_software = refl
implemented supervisor_timer = refl
implemented machine_timer = refl
implemented supervisor_external = refl
implemented machine_external = refl

deliverable_bits :
    (c : CsrFile) (current : PrivilegeMode) (cause : InterruptCause)
    → let n = interrupt_code cause in
      deliverable c current cause ≡ (
        if not (bit_at c.mip n == 1 && bit_at c.mie n == 1)
        then none
        else if bit_at c.mideleg n == 1
        then if is_machine current
          then none
          else if is_user current || bit_at c.mstatus 1 == 1
          then some supervisor
          else none
        else if not (is_machine current) || bit_at c.mstatus 3 == 1
        then some machine
        else none)
unfolding deliverable
deliverable_bits c current cause =
    let n = interrupt_code cause in
    rw
      (
        cause_bit_lem n (interrupt_code-lt cause),
        candidate_test c.mip c.mie n (implemented cause),
        mask_test c.mideleg n,
        has_bit-bit_at c.mstatus 1,
        has_bit-bit_at c.mstatus 3,
      )
      (ground arith)

-- A delivered interrupt is pending and enabled, goes to S-mode exactly if it is delegated and to
-- M-mode otherwise, never lowers the privilege, and within the mode it interrupts needs that
-- mode's global enable bit.
pub deliverable_sound :
    (c : CsrFile) (current target : PrivilegeMode) (cause : InterruptCause)
    → deliverable c current cause ≡ some target
    → let n = interrupt_code cause in
      (bit_at c.mip n ≡ 1)
      × (bit_at c.mie n ≡ 1)
      × (target ≡ (if bit_at c.mideleg n == 1 then supervisor else machine))
      × (privilege_rank current ≤ privilege_rank target)
      × (ltb (privilege_rank current) (privilege_rank target)
            || bit_at c.mstatus (if is_machine target then 3 else 1) == 1
          ≡ true)
deliverable_sound c user target cause e = ground (arith, deliverable_bits c user cause)
deliverable_sound c supervisor target cause e = ground (arith, deliverable_bits c supervisor cause)
deliverable_sound c machine target cause e = ground (arith, deliverable_bits c machine cause)

single_mask :
    (cause : InterruptCause)
    → bit_and (cause_bit (interrupt_code cause)) implemented_interrupt_mask
      ≡ bit (interrupt_code cause)
single_mask supervisor_software = refl
single_mask machine_software = refl
single_mask supervisor_timer = refl
single_mask machine_timer = refl
single_mask supervisor_external = refl
single_mask machine_external = refl

-- A device's level sets or clears the pending bit of its cause and no other.
pub set_interrupt_pending_bits :
    (c : CsrFile) (cause : InterruptCause) (level : Bool) (k : ℕ)
    → k < 64
    → bit_at (set_interrupt_pending c cause level).mip k
      ≡ (if k == interrupt_code cause then (if level then 1 else 0) else bit_at c.mip k)
unfolding set_interrupt_pending
set_interrupt_pending_bits c cause true k h =
    rw (single_mask cause) (ground (arith, bit_at-put c.mip (interrupt_code cause) k true))
set_interrupt_pending_bits c cause false k h =
    rw (single_mask cause)
      (ground (arith, bit_at-put c.mip (interrupt_code cause) k false, interrupt_code-lt cause))
