-- ===== src/Examples/Translation.antt =====
-- src/memory/mmu.cpp on concrete addresses.
use homemade_risc_v_64_vecto.Base.{◌+◌, ◌*◌, ◌%◌, ◌^◌, ◌≡◌, refl, ◌↔◌, true, none, some, All, arith}
use homemade_risc_v_64_vecto.Bus.Access.{word}
use homemade_risc_v_64_vecto.Core.Trap.{supervisor}
use homemade_risc_v_64_vecto.Memory.Ram.{PhysicalMemory}
use homemade_risc_v_64_vecto.Memory.RamSteady.{memory_ops, memory_ops-Steady}
use homemade_risc_v_64_vecto.Memory.Sv39.{
  pte_valid, MmuContext, load, store, permission_allows, superpage_aligned,
  compose_physical_address, page_size_for_level, satp_asid,
}
use homemade_risc_v_64_vecto.Memory.Sv39Laws.{
  composed_address, permission_allows_iff, Grants, Reaches,
}
use homemade_risc_v_64_vecto.Memory.Tlb.{new_mmu, lookup_tlb, fill_tlb, sfence_vma}
use homemade_risc_v_64_vecto.Memory.TlbLaws.{Misses, fenced_lookup_misses, fill_then_lookup}
use homemade_risc_v_64_vecto.Memory.Walk.{translate}
use homemade_risc_v_64_vecto.Memory.WalkLaws.{Completes, translate-Completes}
use homemade_risc_v_64_vecto.Examples.Bus.{small_bus, small_bus-IsWellFormed}

-- Sv39 with the root table at 0x80000000, address space 1, in S-mode.
abbrev paged : MmuContext
paged = record { privilege = supervisor; satp = 8 * 2 ^ 60 + 2 ^ 44 + 0x80000; mstatus = 0 }

composed_address_example :
    compose_physical_address 0x40212345 0x80200 1
    ≡ 0x80200 * 2 ^ 12 + 0x40212345 % page_size_for_level 1
unfolding superpage_aligned
composed_address_example = composed_address 0x40212345 0x80200 1 (omega arith) (omega arith) refl

permission_allows_iff_example :
    (permission_allows 0xD7 store paged ≡ true)
    ↔ (Grants 0xD7 store paged.mstatus × Reaches 0xD7 store supervisor paged.mstatus)
unfolding pte_valid
permission_allows_iff_example = permission_allows_iff 0xD7 store paged refl

fenced_lookup_misses_example :
    (lookup_tlb (sfence_vma new_mmu (some 0x1000) none) 0x1000 load paged).0 ≡ none
fenced_lookup_misses_example =
    fenced_lookup_misses new_mmu (some 0x1000) none 0x1000 load paged refl tt

new_mmu-All-Misses : All (Misses 0x1000 (satp_asid paged.satp)) new_mmu.tlb
new_mmu-All-Misses = ground arith

fill_then_lookup_example :
    (lookup_tlb
      (fill_tlb new_mmu 0x1000 0 0x80001 0xC7 (satp_asid paged.satp))
      0x1000
      store
      paged).0
    ≡ some (compose_physical_address 0x1000 0x80001 0)
unfolding permission_allows
fill_then_lookup_example =
    fill_then_lookup new_mmu 0x1000 0 0x80001 0xC7 store paged (omega arith) new_mmu-All-Misses refl
      (λ e. refl)

translate-Completes_example :
    Completes PhysicalMemory 0x1234 load
      (translate memory_ops 1 small_bus new_mmu 0x1234 word load paged)
translate-Completes_example =
    translate-Completes memory_ops 0 small_bus new_mmu 0x1234 word load paged memory_ops-Steady
      small_bus-IsWellFormed
