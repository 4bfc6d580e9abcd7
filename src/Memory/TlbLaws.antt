-- ===== src/Memory/TlbLaws.antt =====
-- src/memory/mmu.cpp: what a fence removes, and what a filled entry answers.
use homemade_risc_v_64_vecto.Base.{
  ℕ, zero, suc, ◌+◌, ◌%◌, ◌<◌, ◌≤◌, ◌≡◌, refl, ap, add64, Bool, true, false, not, ◌&&◌,
  if◌then◌else◌, arith, Option, none, some, List, [], ◌∷◌, map, set, length, All,
}
use homemade_risc_v_64_vecto.Memory.Sv39.{
  MmuAccessKind, MmuContext, pte_dirty_flag, has, satp_asid, virtual_page_for_level, writes,
  permission_allows, compose_physical_address,
}
use homemade_risc_v_64_vecto.Memory.Sv39Laws.{compose-offset}
use homemade_risc_v_64_vecto.Memory.Tlb.{
  TlbEntry, Mmu, entry_matches, keep_entry, lookup_entries, lookup_result, lookup_tlb, victim_from,
  victim_of, fill_tlb, fence_entry, sfence_vma,
}

-- The operand of a fence that is absent, or names this value.
abbrev pub Covers : Option ℕ → ℕ → Type 0
Covers none x = Unit
Covers (some y) x = y ≡ x

fence_entry-misses :
    (address space : Option ℕ) (va : ℕ) (asid : ℕ) (e : TlbEntry)
    → Covers address va
    → Covers space asid
    → entry_matches (fence_entry address space e) va asid ≡ false
unfolding fence_entry
fence_entry-misses none none va asid e a s = ground arith
fence_entry-misses none (some y) va asid e a s = ground arith
fence_entry-misses (some x) none va asid e a s =
    ground (arith, ap (λ v. virtual_page_for_level v e.level) a)
fence_entry-misses (some x) (some y) va asid e a s =
    ground (arith, ap (λ v. virtual_page_for_level v e.level) a)

abbrev pub Misses : ℕ → ℕ → TlbEntry → Type 0
Misses va asid e = entry_matches e va asid ≡ false

lookup_entries-none :
    (es : List TlbEntry) (va : ℕ) (kind : MmuAccessKind) (context : MmuContext) (age : ℕ)
    → All (Misses va (satp_asid context.satp)) es
    → lookup_entries es va kind context age ≡ none
unfolding lookup_entries
lookup_entries-none [] va kind context age h = refl
lookup_entries-none (e ∷ es) va kind context age h =
    rw (h.0, lookup_entries-none es va kind context age h.1) refl

fence-All-Misses :
    (es : List TlbEntry) (address space : Option ℕ) (va asid : ℕ)
    → Covers address va
    → Covers space asid
    → All (Misses va asid) (map (fence_entry address space) es)
fence-All-Misses [] address space va asid a s = tt
fence-All-Misses (e ∷ es) address space va asid a s =
    (fence_entry-misses address space va asid e a s, fence-All-Misses es address space va asid a s)

-- After a fence whose address is absent or this one, and whose address space is absent or the
-- current one, the cache answers no access to the address, of any kind or privilege: a fence with an
-- address space drops that space's entries and the global ones with them.
pub fenced_lookup_misses :
    (mmu : Mmu) (address space : Option ℕ) (va : ℕ) (kind : MmuAccessKind) (context : MmuContext)
    → Covers address va
    → Covers space (satp_asid context.satp)
    → (lookup_tlb (sfence_vma mmu address space) va kind context).0 ≡ none
unfolding lookup_tlb sfence_vma
fenced_lookup_misses mmu address space va kind context a s =
    let asid = satp_asid context.satp in
    let es = map (fence_entry address space) mmu.tlb in
    let missed =
      lookup_entries-none es va kind context mmu.next_tlb_age
        (fence-All-Misses mmu.tlb address space va asid a s) in
    ap (λ r. (lookup_result (sfence_vma mmu address space) r).0) missed

-- A hit keeps the offset within the 4 KiB page.
abbrev KeepsOffset : ℕ → Option (ℕ × List TlbEntry) → Type 0
KeepsOffset va none = Unit
KeepsOffset va (some (pa, rest)) = pa % 4096 ≡ va % 4096

keep_entry-KeepsOffset :
    (va : ℕ) (e : TlbEntry) (r : Option (ℕ × List TlbEntry))
    → KeepsOffset va r
    → KeepsOffset va (keep_entry e r)
keep_entry-KeepsOffset va e none h = tt
keep_entry-KeepsOffset va e (some (pa, rest)) h = h

if-KeepsOffset :
    (va : ℕ) (c : Bool) (x y : Option (ℕ × List TlbEntry))
    → KeepsOffset va x
    → KeepsOffset va y
    → KeepsOffset va (if c then x else y)
if-KeepsOffset va true x y h k = h
if-KeepsOffset va false x y h k = k

lookup_entries-KeepsOffset :
    (es : List TlbEntry) (va : ℕ) (kind : MmuAccessKind) (context : MmuContext) (age : ℕ)
    → KeepsOffset va (lookup_entries es va kind context age)
unfolding lookup_entries
lookup_entries-KeepsOffset [] va kind context age = tt
lookup_entries-KeepsOffset (e ∷ es) va kind context age =
    let rest = lookup_entries es va kind context age in
    let hit =
      some
        (compose_physical_address va e.physical_page_number e.level, record e { age = age } ∷ es) in
    let clean = not (has e.flags pte_dirty_flag) in
    let permitted = permission_allows e.flags kind context in
    if-KeepsOffset va (not (entry_matches e va (satp_asid context.satp))) (keep_entry e rest)
      (if not permitted then none else if writes kind && clean then none else hit)
      (keep_entry-KeepsOffset va e rest (lookup_entries-KeepsOffset es va kind context age))
      (if-KeepsOffset va (not permitted) none (if writes kind && clean then none else hit) tt (
        if-KeepsOffset va (writes kind && clean) none hit tt
          (compose-offset va e.physical_page_number e.level)))

lookup_result-offset :
    (mmu : Mmu) (va : ℕ) (r : Option (ℕ × List TlbEntry)) (pa : ℕ)
    → KeepsOffset va r
    → (lookup_result mmu r).0 ≡ some pa
    → pa % 4096 ≡ va % 4096
lookup_result-offset mmu va none pa k h = cc
lookup_result-offset mmu va (some (p, rest)) pa k h = ground (arith, h, k)

pub lookup_tlb-offset :
    (mmu : Mmu) (va : ℕ) (kind : MmuAccessKind) (context : MmuContext) (pa : ℕ)
    → (lookup_tlb mmu va kind context).0 ≡ some pa
    → pa % 4096 ≡ va % 4096
unfolding lookup_tlb
lookup_tlb-offset mmu va kind context pa h =
    lookup_result-offset mmu va (lookup_entries mmu.tlb va kind context mmu.next_tlb_age) pa
      (lookup_entries-KeepsOffset mmu.tlb va kind context mmu.next_tlb_age) h

victim_from-lt :
    (es : List TlbEntry) (index victim age n : ℕ)
    → victim < n
    → index + length es ≤ n
    → victim_from es index victim age < n
unfolding victim_from
victim_from-lt [] index victim age n v h = v
victim_from-lt (e ∷ es) index victim age n v h = ground (
  arith,
  victim_from-lt es (index + 1) index e.age n (omega arith) (omega arith),
  victim_from-lt es (index + 1) victim age n v (omega arith),
)

victim_of-lt : (es : List TlbEntry) → 1 ≤ length es → victim_of es < length es
unfolding victim_of
victim_of-lt [] h = h
victim_of-lt (e ∷ es) h =
    victim_from-lt (e ∷ es) 0 0 e.age (length (e ∷ es)) (omega arith) (omega arith)

-- An entry that matches and permits the access is found, wherever it is put among entries that miss.
lookup_entries-set :
    (es : List TlbEntry) (i : ℕ) (e : TlbEntry) (va : ℕ) (kind : MmuAccessKind)
    (context : MmuContext) (age : ℕ)
    → i < length es
    → All (Misses va (satp_asid context.satp)) es
    → entry_matches e va (satp_asid context.satp) ≡ true
    → permission_allows e.flags kind context ≡ true
    → (writes kind ≡ true → has e.flags pte_dirty_flag ≡ true)
    → lookup_entries (set es i e) va kind context age
      ≡ some (
        compose_physical_address va e.physical_page_number e.level,
        set es i (record e { age = age }),
      )
unfolding lookup_entries
lookup_entries-set [] i e va kind context age l h m p d = elim l [ ]
lookup_entries-set (x ∷ es) zero e va kind context age l h m p d = ground (arith, m, p, d)
lookup_entries-set (x ∷ es) (suc i) e va kind context age l h m p d =
    rw (h.0, lookup_entries-set es i e va kind context age (omega arith) h.1 m p d) refl

-- The cache answers an access to a page that it did not match with the translation that was just
-- filled in, if the leaf's flags permit the access and are dirty where it writes.
pub fill_then_lookup :
    (mmu : Mmu) (va level ppn flags : ℕ) (kind : MmuAccessKind) (context : MmuContext)
    → 1 ≤ length mmu.tlb
    → All (Misses va (satp_asid context.satp)) mmu.tlb
    → permission_allows flags kind context ≡ true
    → (writes kind ≡ true → has flags pte_dirty_flag ≡ true)
    → (lookup_tlb (fill_tlb mmu va level ppn flags (satp_asid context.satp)) va kind context).0
      ≡ some (compose_physical_address va ppn level)
unfolding lookup_tlb fill_tlb
fill_then_lookup mmu va level ppn flags kind context n h p d =
    let asid = satp_asid context.satp in
    let e : TlbEntry = record {
      valid = true;
      virtual_page = virtual_page_for_level va level;
      asid = asid;
      level = level;
      physical_page_number = ppn;
      flags = flags;
      age = mmu.next_tlb_age;
    } in
    let filled = fill_tlb mmu va level ppn flags asid in
    let matching : entry_matches e va asid ≡ true = ground arith in
    let hit =
      lookup_entries-set mmu.tlb (victim_of mmu.tlb) e va kind context (add64 mmu.next_tlb_age 1)
        (victim_of-lt mmu.tlb n) h matching p d in
    ap (λ r. (lookup_result filled r).0) hit
