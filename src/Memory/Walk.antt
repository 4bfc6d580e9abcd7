-- ===== src/Memory/Walk.antt =====
-- src/memory/mmu.cpp: the page-table walk over the bus, with its atomic update of the accessed and
-- dirty bits, and the translation that tries the cache first.
use homemade_risc_v_64_vecto.Base.{
  ℕ, zero, suc, ◌*◌, bit_or, shl64, Bool, true, false, not, ◌||◌, ◌==◌, if◌then◌else◌, Option, none,
  some,
}
use homemade_risc_v_64_vecto.Bus.Access.{AccessWidth, double_word, AccessType, AccessResult, is_ok}
use homemade_risc_v_64_vecto.Bus.Access
use homemade_risc_v_64_vecto.Bus.Region.{RegionOps}
use homemade_risc_v_64_vecto.Bus.Routing.{Bus}
use homemade_risc_v_64_vecto.Bus.Routing
use homemade_risc_v_64_vecto.Core.Trap.{is_machine}
use homemade_risc_v_64_vecto.Memory.Sv39.{
  MmuAccessKind, MmuContext, MmuFault, TranslationResult, pte_accessed_flag, pte_dirty_flag,
  satp_mode, satp_asid, satp_root_ppn, vpn, pte_ppn, pte_flags, canonical_sv39, pte_valid, pte_leaf,
  add_overflows, page_fault, writes, permission_allows, superpage_aligned, compose_physical_address,
}
use homemade_risc_v_64_vecto.Memory.Tlb.{Mmu, lookup_tlb, fill_tlb}

pub record PageWalkResult : Type 0 where
  pub physical_address : Option ℕ
  pub fault : Option MmuFault
  pub retry : Bool

abbrev pub walk_fault : MmuAccessKind → ℕ → PageWalkResult
walk_fault kind virtual_address = record {
  physical_address = none;
  fault = some (page_fault kind virtual_address);
  retry = false;
}

-- The leaf entry as the access must leave it: accessed, and dirty if the access writes.
unfoldable pub desired_pte : ℕ → MmuAccessKind → ℕ
desired_pte pte kind =
    let accessed = bit_or pte pte_accessed_flag in
    if writes kind then bit_or accessed pte_dirty_flag else accessed

module _ {D : Type 0} (ops : RegionOps D) where
  -- The end of a walk that found its leaf and left it as desired.
  abbrev pub walk_hit : Bus D → Mmu → ℕ → MmuContext → ℕ → ℕ → ℕ → PageWalkResult × Bus D × Mmu
  walk_hit b mmu virtual_address context level pte desired = (
    record {
      physical_address = some (compose_physical_address virtual_address (pte_ppn pte) level);
      fault = none;
      retry = false;
    },
    b,
    fill_tlb mmu virtual_address level (pte_ppn pte) (pte_flags desired) (satp_asid context.satp),
  )

  -- The loop body from the test on a leaf's alignment and permission on.
  unfoldable pub walk_leaf :
      Bus D → Mmu → ℕ → MmuAccessKind → MmuContext → ℕ → ℕ → ℕ → PageWalkResult × Bus D × Mmu
  walk_leaf b mmu virtual_address kind context level pte_address pte =
      let desired = desired_pte pte kind in
      let (updated, b') =
        Routing.compare_exchange ops b pte_address double_word pte desired
          Access.AccessType.atomic in
      if not (superpage_aligned (pte_ppn pte) level)
        || not (permission_allows (pte_flags pte) kind context)
      then (walk_fault kind virtual_address, b, mmu)
      else if desired == pte
      then walk_hit b mmu virtual_address context level pte desired
      else if not (is_ok updated)
      then (walk_fault kind virtual_address, b', mmu)
      else if not updated.exchanged
      then (record { physical_address = none; fault = none; retry = true }, b', mmu)
      else walk_hit b' mmu virtual_address context level pte desired

  -- The body of the loop; `next` is the rest of the loop, with the table that the entry names.
  unfoldable pub walk_level :
      (Bus D → ℕ → PageWalkResult × Bus D × Mmu)
      → Bus D
      → Mmu
      → ℕ
      → MmuAccessKind
      → MmuContext
      → ℕ
      → ℕ
      → PageWalkResult × Bus D × Mmu
  walk_level next b mmu virtual_address kind context level table_ppn =
      let (overflow, pte_address) =
        add_overflows (shl64 table_ppn 12) (vpn virtual_address level * 8) in
      let (pte_read, b') = Routing.read ops b pte_address double_word Access.AccessType.load in
      let pte = pte_read.value in
      if overflow
      then (walk_fault kind virtual_address, b, mmu)
      else if not (is_ok pte_read)
      then (walk_fault kind virtual_address, b', mmu)
      else if not (pte_valid (pte_flags pte))
      then (walk_fault kind virtual_address, b', mmu)
      else if not (pte_leaf (pte_flags pte))
      then next b' (pte_ppn pte)
      else walk_leaf b' mmu virtual_address kind context level pte_address pte

  -- The loop from `level` down to 0, at the table that `table_ppn` names.
  unfoldable pub walk_from :
      ℕ → Bus D → Mmu → ℕ → MmuAccessKind → MmuContext → ℕ → PageWalkResult × Bus D × Mmu
  walk_from zero b mmu virtual_address kind context table_ppn =
      walk_level (λ b' ppn. (walk_fault kind virtual_address, b', mmu)) b mmu virtual_address kind
        context 0 table_ppn
  walk_from (suc level) b mmu virtual_address kind context table_ppn =
      walk_level (λ b' ppn. walk_from level b' mmu virtual_address kind context ppn) b mmu
        virtual_address kind context (suc level) table_ppn

  unfoldable pub walk_page_table :
      Bus D → Mmu → ℕ → MmuAccessKind → MmuContext → PageWalkResult × Bus D × Mmu
  walk_page_table b mmu virtual_address kind context =
      walk_from 2 b mmu virtual_address kind context (satp_root_ppn context.satp)

  -- The `for (;;)` of `translate`, for at most `fuel` walks; none if every one asked to retry.
  unfoldable pub translate_loop :
      ℕ → Bus D → Mmu → ℕ → MmuAccessKind → MmuContext → Option (TranslationResult × Bus D × Mmu)
  translate_loop zero b mmu virtual_address kind context = none
  translate_loop (suc fuel) b mmu virtual_address kind context =
      let (walked, b', mmu') = walk_page_table b mmu virtual_address kind context in
      let again = translate_loop fuel b' mmu' virtual_address kind context in
      if walked.retry
      then again
      else some
          (record { physical_address = walked.physical_address; fault = walked.fault }, b', mmu')

  -- Whether `translate` returns the address as it is.
  abbrev pub is_bare : MmuContext → Bool
  is_bare context = is_machine context.privilege || satp_mode context.satp == 0

  unfoldable pub translate :
      ℕ
      → Bus D
      → Mmu
      → ℕ
      → AccessWidth
      → MmuAccessKind
      → MmuContext
      → Option (TranslationResult × Bus D × Mmu)
  translate fuel b mmu virtual_address w kind context =
      if is_bare context
      then some (record { physical_address = some virtual_address; fault = none }, b, mmu)
      else if not (satp_mode context.satp == 8) || not (canonical_sv39 virtual_address)
      then some (
        record { physical_address = none; fault = some (page_fault kind virtual_address) },
        b,
        mmu,
      )
      else let (cached, mmu') = lookup_tlb mmu virtual_address kind context in
        elim cached [
          | none ↦ translate_loop fuel b mmu' virtual_address kind context
          | some physical ↦
              some (record { physical_address = some physical; fault = none }, b, mmu')
        ]
