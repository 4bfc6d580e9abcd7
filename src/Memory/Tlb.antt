-- ===== src/Memory/Tlb.antt =====
-- src/memory/mmu.cpp: the translation cache, 64 entries with ages, and SFENCE.VMA.
use homemade_risc_v_64_vecto.Base.{
  ℕ, ◌+◌, add64, Bool, true, false, not, ◌||◌, ◌&&◌, ltb, ◌==◌, if◌then◌else◌, Option, none, some,
  List, [], ◌∷◌, map, set, replicate,
}
use homemade_risc_v_64_vecto.Memory.Sv39.{
  MmuAccessKind, MmuContext, pte_global_flag, pte_dirty_flag, has, satp_asid,
  virtual_page_for_level, writes, permission_allows, compose_physical_address,
}

pub record TlbEntry : Type 0 where
  pub valid : Bool
  pub virtual_page : ℕ
  pub asid : ℕ
  pub level : ℕ
  pub physical_page_number : ℕ
  pub flags : ℕ
  pub age : ℕ

pub record Mmu : Type 0 where
  pub tlb : List TlbEntry
  pub next_tlb_age : ℕ

abbrev pub empty_entry : TlbEntry
empty_entry = record {
  valid = false;
  virtual_page = 0;
  asid = 0;
  level = 0;
  physical_page_number = 0;
  flags = 0;
  age = 0;
}

abbrev pub new_mmu : Mmu
new_mmu = record { tlb = replicate 64 empty_entry; next_tlb_age = 1 }

-- The three tests by which the lookup passes over an entry.
abbrev pub entry_matches : TlbEntry → ℕ → ℕ → Bool
entry_matches entry virtual_address asid =
    entry.valid
    && (has entry.flags pte_global_flag || entry.asid == asid)
    && entry.virtual_page == virtual_page_for_level virtual_address entry.level

-- The loop goes on past an entry.
abbrev pub keep_entry : TlbEntry → Option (ℕ × List TlbEntry) → Option (ℕ × List TlbEntry)
keep_entry entry none = none
keep_entry entry (some (physical, entries)) = some (physical, entry ∷ entries)

-- The loop of `lookup_tlb` over the entries; a hit returns the address and the entries with the
-- one that was hit given the age.
unfoldable pub lookup_entries :
    List TlbEntry → ℕ → MmuAccessKind → MmuContext → ℕ → Option (ℕ × List TlbEntry)
lookup_entries [] virtual_address kind context age = none
lookup_entries (entry ∷ entries) virtual_address kind context age =
    let rest = lookup_entries entries virtual_address kind context age in
    if not (entry_matches entry virtual_address (satp_asid context.satp))
    then keep_entry entry rest
    else if not (permission_allows entry.flags kind context)
    then none
    else if writes kind && not (has entry.flags pte_dirty_flag)
    then none
    else some (
      compose_physical_address virtual_address entry.physical_page_number entry.level,
      record entry { age = age } ∷ entries,
    )

abbrev pub lookup_result : Mmu → Option (ℕ × List TlbEntry) → Option ℕ × Mmu
lookup_result mmu none = (none, mmu)
lookup_result mmu (some (physical, entries)) =
    (some physical, record { tlb = entries; next_tlb_age = add64 mmu.next_tlb_age 1 })

unfoldable pub lookup_tlb : Mmu → ℕ → MmuAccessKind → MmuContext → Option ℕ × Mmu
lookup_tlb mmu virtual_address kind context =
    lookup_result mmu (lookup_entries mmu.tlb virtual_address kind context mmu.next_tlb_age)

-- The entry to replace, as its place: the first invalid one, else the first of the least age.
-- `victim` is the place and age of the best so far, `index` the place of the head.
unfoldable pub victim_from : List TlbEntry → ℕ → ℕ → ℕ → ℕ
victim_from [] index victim victim_age = victim
victim_from (entry ∷ entries) index victim victim_age =
    let older = victim_from entries (index + 1) index entry.age in
    let rest = victim_from entries (index + 1) victim victim_age in
    if not entry.valid then index else if ltb entry.age victim_age then older else rest

unfoldable pub victim_of : List TlbEntry → ℕ
victim_of [] = 0
victim_of (entry ∷ entries) = victim_from (entry ∷ entries) 0 0 entry.age

unfoldable pub fill_tlb : Mmu → ℕ → ℕ → ℕ → ℕ → ℕ → Mmu
fill_tlb mmu virtual_address level physical_page_number flags asid = record {
  tlb = set mmu.tlb (victim_of mmu.tlb) (record {
    valid = true;
    virtual_page = virtual_page_for_level virtual_address level;
    asid = asid;
    level = level;
    physical_page_number = physical_page_number;
    flags = flags;
    age = mmu.next_tlb_age;
  });
  next_tlb_age = add64 mmu.next_tlb_age 1;
}

-- Whether a fence with this address and address space passes over an entry.
abbrev pub asid_spared : Option ℕ → TlbEntry → Bool
asid_spared none entry = false
asid_spared (some asid) entry = not (entry.asid == asid) && not (has entry.flags pte_global_flag)

abbrev pub address_spared : Option ℕ → TlbEntry → Bool
address_spared none entry = false
address_spared (some virtual_address) entry =
    not (entry.virtual_page == virtual_page_for_level virtual_address entry.level)

-- The body of the loop of `sfence_vma`.
unfoldable pub fence_entry : Option ℕ → Option ℕ → TlbEntry → TlbEntry
fence_entry virtual_address asid entry =
    if not entry.valid
    then entry
    else if asid_spared asid entry
    then entry
    else if address_spared virtual_address entry
    then entry
    else record entry { valid = false }

unfoldable pub sfence_vma : Mmu → Option ℕ → Option ℕ → Mmu
sfence_vma mmu virtual_address asid = record mmu {
  tlb = map (fence_entry virtual_address asid) mmu.tlb;
}

unfoldable pub valid_tlb_entries : List TlbEntry → ℕ
valid_tlb_entries [] = 0
valid_tlb_entries (entry ∷ entries) = (if entry.valid then 1 else 0) + valid_tlb_entries entries
