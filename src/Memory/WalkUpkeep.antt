-- ===== src/Memory/WalkUpkeep.antt =====
-- src/memory/mmu.cpp: a translation keeps the regions of the bus valid and in order.
use homemade_risc_v_64_vecto.Base.{
  ℕ, zero, suc, ◌*◌, Bool, true, false, not, if◌then◌else◌, ◌||◌, ◌==◌, some, none, Option, add64,
  shl64,
}
use homemade_risc_v_64_vecto.Bus.Access
use homemade_risc_v_64_vecto.Bus.Access.{AccessWidth, is_ok, double_word}
use homemade_risc_v_64_vecto.Bus.Region.{RegionOps}
use homemade_risc_v_64_vecto.Bus.Routing
use homemade_risc_v_64_vecto.Bus.Routing.{Bus}
use homemade_risc_v_64_vecto.Bus.Layout.{IsWellFormed}
use homemade_risc_v_64_vecto.Bus.Upkeep.{read-IsWellFormed, compare_exchange-IsWellFormed}
use homemade_risc_v_64_vecto.Memory.Sv39.{
  MmuAccessKind, MmuContext, TranslationResult, vpn, satp_root_ppn, superpage_aligned, pte_ppn,
  pte_flags, permission_allows, satp_mode, canonical_sv39, pte_valid, pte_leaf, add_overflows,
}
use homemade_risc_v_64_vecto.Memory.Tlb.{Mmu, lookup_tlb}
use homemade_risc_v_64_vecto.Memory.Walk.{
  PageWalkResult, desired_pte, walk_leaf, walk_level, walk_from, walk_page_table, translate_loop,
  translate, is_bare,
}

-- The bus that a translation leaves behind, if it ends.
abbrev pub Leaves : (D : Type 0) → Option (TranslationResult × Bus D × Mmu) → Type 0
Leaves D none = Unit
Leaves D (some (t, b, m)) = IsWellFormed b

-- The bus that a walk leaves behind.
record WalksWell (D : Type 0) (walked : PageWalkResult × Bus D × Mmu) : Type 0 where
  kept : IsWellFormed walked.1

pub record LeavesWellFormed (D : Type 0) (outcome : Option (TranslationResult × Bus D × Mmu))
    : Type 0 where
  pub kept : Leaves D outcome

module _ {D : Type 0} (ops : RegionOps D) where
  pick :
      (test : Bool) {x y : PageWalkResult × Bus D × Mmu}
      → WalksWell D x
      → WalksWell D y
      → WalksWell D (if test then x else y)
  pick true h k = h
  pick false h k = k

  here : (r : PageWalkResult) (b : Bus D) (mmu : Mmu) → IsWellFormed b → WalksWell D (r, b, mmu)
  here r b mmu valid = record { kept = valid }

  walk_leaf-WalksWell :
      (b : Bus D) (mmu : Mmu) (va : ℕ) (kind : MmuAccessKind) (context : MmuContext)
      (level a pte : ℕ)
      → IsWellFormed b
      → WalksWell D (walk_leaf ops b mmu va kind context level a pte)
  unfolding walk_leaf
  walk_leaf-WalksWell b mmu va kind context level a pte valid =
      let kept =
        compare_exchange-IsWellFormed ops b a double_word pte (desired_pte pte kind)
          Access.AccessType.atomic valid in
      let updated =
        Routing.compare_exchange ops b a double_word pte (desired_pte pte kind)
          Access.AccessType.atomic in
      pick
        (not (superpage_aligned (pte_ppn pte) level)
          || not (permission_allows (pte_flags pte) kind context))
        (here _ b _ valid)
        (pick (desired_pte pte kind == pte) (here _ b _ valid) (
          pick (not (is_ok updated.0)) (here _ updated.1 _ kept)
            (pick (not updated.0.exchanged) (here _ updated.1 _ kept) (here _ updated.1 _ kept))))

  walk_level-WalksWell :
      (next : Bus D → ℕ → PageWalkResult × Bus D × Mmu) (b : Bus D) (mmu : Mmu) (va : ℕ)
      (kind : MmuAccessKind) (context : MmuContext) (level ppn : ℕ)
      → IsWellFormed b
      → ((b' : Bus D) (ppn' : ℕ) → IsWellFormed b' → WalksWell D (next b' ppn'))
      → WalksWell D (walk_level ops next b mmu va kind context level ppn)
  unfolding walk_level
  walk_level-WalksWell next b mmu va kind context level ppn valid later =
      let a = add64 (shl64 ppn 12) (vpn va level * 8) in
      let read = Routing.read ops b a double_word Access.AccessType.load in
      let kept = read-IsWellFormed ops b a double_word Access.AccessType.load valid in
      pick (add_overflows (shl64 ppn 12) (vpn va level * 8)).0 (here _ b _ valid) (
        pick (not (is_ok read.0)) (here _ read.1 _ kept) (
          pick (not (pte_valid (pte_flags read.0.value))) (here _ read.1 _ kept) (
            pick (not (pte_leaf (pte_flags read.0.value))) (later read.1 _ kept)
              (walk_leaf-WalksWell read.1 mmu va kind context level _ _ kept))))

  walk_from-WalksWell :
      (level : ℕ) (b : Bus D) (mmu : Mmu) (va : ℕ) (kind : MmuAccessKind) (context : MmuContext)
      (ppn : ℕ)
      → IsWellFormed b
      → WalksWell D (walk_from ops level b mmu va kind context ppn)
  unfolding walk_from
  walk_from-WalksWell zero b mmu va kind context ppn valid =
      walk_level-WalksWell _ b mmu va kind context 0 ppn valid (λ b' p w. here _ b' _ w)
  walk_from-WalksWell (suc level) b mmu va kind context ppn valid =
      walk_level-WalksWell _ b mmu va kind context (suc level) ppn valid
        (λ b' p w. walk_from-WalksWell level b' mmu va kind context p w)

  choose :
      (test : Bool) {x y : Option (TranslationResult × Bus D × Mmu)}
      → LeavesWellFormed D x
      → LeavesWellFormed D y
      → LeavesWellFormed D (if test then x else y)
  choose true h k = h
  choose false h k = k

  answered :
      (r : TranslationResult) (b : Bus D) (mmu : Mmu)
      → IsWellFormed b
      → LeavesWellFormed D (some (r, b, mmu))
  answered r b mmu valid = record { kept = valid }

  translate_loop-LeavesWellFormed :
      (fuel : ℕ) (b : Bus D) (mmu : Mmu) (va : ℕ) (kind : MmuAccessKind) (context : MmuContext)
      → IsWellFormed b
      → LeavesWellFormed D (translate_loop ops fuel b mmu va kind context)
  unfolding translate_loop walk_page_table
  translate_loop-LeavesWellFormed zero b mmu va kind context valid = record { kept = tt }
  translate_loop-LeavesWellFormed (suc fuel) b mmu va kind context valid =
      let walked = walk_from ops 2 b mmu va kind context (satp_root_ppn context.satp) in
      let walks = walk_from-WalksWell 2 b mmu va kind context (satp_root_ppn context.satp) valid in
      choose walked.0.retry
        (translate_loop-LeavesWellFormed fuel walked.1 walked.2 va kind context walks.kept)
        (answered _ walked.1 walked.2 walks.kept)

  cached_or :
      (b : Bus D) (mmu : Mmu) (o : Option ℕ) {x : Option (TranslationResult × Bus D × Mmu)}
      → IsWellFormed b
      → LeavesWellFormed D x
      → LeavesWellFormed D (elim o [
        | none ↦ x
        | some pa ↦ some (record { physical_address = some pa; fault = none }, b, mmu)
      ])
  cached_or b mmu none valid h = h
  cached_or b mmu (some pa) valid h = record { kept = valid }

  pub translate-LeavesWellFormed :
      (fuel : ℕ) (b : Bus D) (mmu : Mmu) (va : ℕ) (w : AccessWidth) (kind : MmuAccessKind)
      (context : MmuContext)
      → IsWellFormed b
      → LeavesWellFormed D (translate ops fuel b mmu va w kind context)
  unfolding translate
  translate-LeavesWellFormed fuel b mmu va w kind context valid =
      choose (is_bare ops context) (answered _ b mmu valid) (
        choose (not (satp_mode context.satp == 8) || not (canonical_sv39 va))
          (answered _ b mmu valid)
          (cached_or b (lookup_tlb mmu va kind context).1 (lookup_tlb mmu va kind context).0 valid
            (translate_loop-LeavesWellFormed fuel b _ va kind context valid)))
