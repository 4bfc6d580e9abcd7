-- ===== src/Memory/WalkLaws.antt =====
-- src/memory/mmu.cpp, `translate`: every translation ends, with an address or with the page fault.
use homemade_risc_v_64_vecto.Base.{
  ℕ, zero, suc, ◌*◌, ◌%◌, ◌≤◌, ◌≡◌, refl, bit_or, shl64, add64, true, false, ◌&&◌, ◌==◌,
  if◌then◌else◌, arith, Option, none, some,
}
use homemade_risc_v_64_vecto.Base.Bits.{bit_at}
use homemade_risc_v_64_vecto.Base.Bits.Fields.{bit_at-set}
use homemade_risc_v_64_vecto.Bus.Access.{
  AccessWidth, double_word, AccessType, AccessResult, BusError, is_ok,
}
use homemade_risc_v_64_vecto.Bus.Access
use homemade_risc_v_64_vecto.Bus.Range.{max_u64}
use homemade_risc_v_64_vecto.Bus.Region.{Region, RegionOps}
use homemade_risc_v_64_vecto.Bus.Routing.{Bus, Located, found, failed, locate, put_device}
use homemade_risc_v_64_vecto.Bus.Routing
use homemade_risc_v_64_vecto.Bus.Layout.{IsWellFormed}
use homemade_risc_v_64_vecto.Bus.Reservation.{locate_again, Ordered-set}
use homemade_risc_v_64_vecto.Bus.Locate.{locate-found_iff, locate-failed}
use homemade_risc_v_64_vecto.Memory.Sv39.{
  MmuAccessKind, MmuContext, MmuFault, TranslationResult, page_fault, writes, pte_ppn, vpn,
  satp_root_ppn,
}
use homemade_risc_v_64_vecto.Memory.Sv39Laws.{compose-offset}
use homemade_risc_v_64_vecto.Memory.Tlb.{Mmu, lookup_tlb}
use homemade_risc_v_64_vecto.Memory.TlbLaws.{lookup_tlb-offset}
use homemade_risc_v_64_vecto.Memory.Walk.{
  PageWalkResult, desired_pte, walk_fault, walk_hit, walk_leaf, walk_level, walk_from,
  walk_page_table, translate_loop, translate,
}

-- The leaf that a walk writes back differs from the one that it read in the accessed bit, which is
-- set, and in the dirty bit, which is set if the access writes.
pub desired_pte_bits :
    (pte : ℕ) (kind : MmuAccessKind) (k : ℕ)
    → bit_at (desired_pte pte kind) k
      ≡ (if k == 6 then 1 else if k == 7 && writes kind then 1 else bit_at pte k)
unfolding desired_pte
desired_pte_bits pte kind k = ground (arith, bit_at-set pte 6 k, bit_at-set (bit_or pte 64) 7 k)

-- An answer for an access: an address with the offset of the one asked for, or the page fault of this
-- kind of access at this address.
abbrev pub Answers : ℕ → MmuAccessKind → Option ℕ → Option MmuFault → Type 0
Answers va kind (some pa) fault = (pa % 4096 ≡ va % 4096) × (fault ≡ none)
Answers va kind none fault = fault ≡ some (page_fault kind va)

-- A translation that ends with an answer.
pub record Completes (D : Type 0) (va : ℕ) (kind : MmuAccessKind)
    (outcome : Option (TranslationResult × Bus D × Mmu)) : Type 0 where
  pub result : TranslationResult × Bus D × Mmu
  pub ended : outcome ≡ some result
  pub answer : Answers va kind result.0.physical_address result.0.fault

-- A walk that answers, and does not ask to be tried again.
record WalkAnswers (D : Type 0) (va : ℕ) (kind : MmuAccessKind) (r : PageWalkResult × Bus D × Mmu)
    : Type 0 where
  answer : Answers va kind r.0.physical_address r.0.fault
  settled : r.0.retry ≡ false

module _ {D : Type 0} (ops : RegionOps D) where
  -- Between a device's read and an exchange that expects what it returned nothing else comes, so an
  -- exchange that the device accepts succeeds.
  abbrev pub Steady : Type 0
  Steady =
      (d : D) (o desired : ℕ)
      → let r = ops.read d o double_word Access.AccessType.load in
        let u = ops.compare_exchange r.1 o double_word r.0.value desired Access.AccessType.atomic in
        is_ok r.0 ≡ true → is_ok u.0 ≡ true → u.0.exchanged ≡ true

  read-failed :
      (b : Bus D) (a : ℕ) (w : AccessWidth) (t : AccessType) {e : BusError}
      → locate b a w ≡ failed e
      → a ≤ max_u64
      → (is_ok (Routing.read ops b a w t).0 ≡ false) × ((Routing.read ops b a w t).1 ≡ b)
  unfolding Routing.read
  read-failed b a w t {e} q h = ground (arith, locate-failed b a w e h q)

  read-found :
      (b : Bus D) (a : ℕ) (w : AccessWidth) (t : AccessType) {i off : ℕ} {r : Region D}
      → locate b a w ≡ found i r off
      → Routing.read ops b a w t
        ≡ ((ops.read r.device off w t).0, put_device b i r (ops.read r.device off w t).1)
  unfolding Routing.read
  read-found b a w t q = ground arith

  exchange-found :
      (b : Bus D) (a : ℕ) (w : AccessWidth) (x y : ℕ) (t : AccessType) {i off : ℕ} {r : Region D}
      → locate b a w ≡ found i r off
      → (Routing.compare_exchange ops b a w x y t).0 ≡ (ops.compare_exchange r.device off w x y t).0
  unfolding Routing.compare_exchange
  exchange-found b a w x y t q = ground arith

  read-located :
      (b : Bus D) (a : ℕ) (w : AccessWidth) (t : AccessType) (l : Located D)
      → locate b a w ≡ l
      → IsWellFormed b
      → a ≤ max_u64
      → IsWellFormed (Routing.read ops b a w t).1
  read-located b a w t (failed e) q o h = rw ((read-failed b a w t q h).1) o
  read-located b a w t (found i r off) q o h =
      let g = (locate-found_iff b a w i off r o h).0 q in
      rw (read-found b a w t q) (Ordered-set 0 b.regions i r (ops.read r.device off w t).1 g.1 o)

  exchange-located :
      (b : Bus D) (a desired : ℕ) (l : Located D)
      → Steady
      → locate b a double_word ≡ l
      → IsWellFormed b
      → a ≤ max_u64
      → let r = Routing.read ops b a double_word Access.AccessType.load in
        let u =
          Routing.compare_exchange ops r.1 a double_word r.0.value desired
            Access.AccessType.atomic in
        is_ok r.0 ≡ true → is_ok u.0 ≡ true → u.0.exchanged ≡ true
  exchange-located b a desired (failed e) s q o h =
      let refused = (read-failed b a double_word Access.AccessType.load q h).0 in λ good ok. cc
  exchange-located b a desired (found i r off) s q o h =
      let read = ops.read r.device off double_word Access.AccessType.load in
      let again = locate_again b a double_word read.1 (put_device b i r read.1) o h q refl in
      rw
        (
          read-found b a double_word Access.AccessType.load q,
          exchange-found (put_device b i r read.1) a double_word read.0.value desired
              Access.AccessType.atomic again,
        )
        (s r.device off desired)

  walk_fault-answers :
      (b : Bus D) (mmu : Mmu) (va : ℕ) (kind : MmuAccessKind)
      → WalkAnswers D va kind (walk_fault kind va, b, mmu)
  walk_fault-answers b mmu va kind = record { answer = refl; settled = refl }

  walk_hit-answers :
      (b : Bus D) (mmu : Mmu) (va : ℕ) (kind : MmuAccessKind) (context : MmuContext)
      (level pte desired : ℕ)
      → WalkAnswers D va kind (walk_hit ops b mmu va context level pte desired)
  walk_hit-answers b mmu va kind context level pte desired = record {
    answer = (compose-offset va (pte_ppn pte) level, refl);
    settled = refl;
  }

  walk_leaf-answers :
      (b : Bus D) (mmu : Mmu) (va : ℕ) (kind : MmuAccessKind) (context : MmuContext)
      (level a pte : ℕ)
      → (let u =
            Routing.compare_exchange ops b a double_word pte
              (desired_pte pte kind)
              Access.AccessType.atomic in
          is_ok u.0 ≡ true → u.0.exchanged ≡ true)
      → WalkAnswers D va kind (walk_leaf ops b mmu va kind context level a pte)
  unfolding walk_leaf
  walk_leaf-answers b mmu va kind context level a pte s =
      let u =
        Routing.compare_exchange ops b a double_word pte (desired_pte pte kind)
          Access.AccessType.atomic in
      let desired = desired_pte pte kind in
      ground (
        arith,
        s,
        walk_fault-answers b mmu va kind,
        walk_fault-answers u.1 mmu va kind,
        walk_hit-answers b mmu va kind context level pte desired,
        walk_hit-answers u.1 mmu va kind context level pte desired,
      )

  walk_level-answers :
      (next : Bus D → ℕ → PageWalkResult × Bus D × Mmu) (b : Bus D) (mmu : Mmu) (va : ℕ)
      (kind : MmuAccessKind) (context : MmuContext) (level ppn : ℕ)
      → Steady
      → IsWellFormed b
      → ((b' : Bus D) (ppn' : ℕ) → IsWellFormed b' → WalkAnswers D va kind (next b' ppn'))
      → WalkAnswers D va kind (walk_level ops next b mmu va kind context level ppn)
  unfolding walk_level
  walk_level-answers next b mmu va kind context level ppn s o n =
      let a = add64 (shl64 ppn 12) (vpn va level * 8) in
      let small : a ≤ max_u64 = omega arith in
      let r = Routing.read ops b a double_word Access.AccessType.load in
      let kept =
        read-located b a double_word Access.AccessType.load (locate b a double_word) refl o small in
      let pte = r.0.value in
      let steady =
        exchange-located b a (desired_pte pte kind) (locate b a double_word) s refl o small in
      ground (
        arith,
        walk_fault-answers b mmu va kind,
        walk_fault-answers r.1 mmu va kind,
        n r.1 (pte_ppn pte) kept,
        λ (good : is_ok r.0 ≡ true).
            walk_leaf-answers r.1 mmu va kind context level a pte (steady good),
      )

  walk_from-answers :
      (level : ℕ) (b : Bus D) (mmu : Mmu) (va : ℕ) (kind : MmuAccessKind) (context : MmuContext)
      (ppn : ℕ)
      → Steady
      → IsWellFormed b
      → WalkAnswers D va kind (walk_from ops level b mmu va kind context ppn)
  unfolding walk_from
  walk_from-answers zero b mmu va kind context ppn s o =
      walk_level-answers _ b mmu va kind context 0 ppn s o
        (λ b' p w. walk_fault-answers b' mmu va kind)
  walk_from-answers (suc level) b mmu va kind context ppn s o =
      walk_level-answers _ b mmu va kind context (suc level) ppn s o
        (λ b' p w. walk_from-answers level b' mmu va kind context p s w)

  loop-Completes :
      (fuel : ℕ) (b : Bus D) (mmu : Mmu) (va : ℕ) (kind : MmuAccessKind) (context : MmuContext)
      → Steady
      → IsWellFormed b
      → Completes D va kind (translate_loop ops (suc fuel) b mmu va kind context)
  unfolding translate_loop walk_page_table
  loop-Completes fuel b mmu va kind context s o =
      let r = walk_page_table ops b mmu va kind context in
      let answers = walk_from-answers 2 b mmu va kind context (satp_root_ppn context.satp) s o in
      rw (answers.settled) (record {
        result = (record { physical_address = r.0.physical_address; fault = r.0.fault }, r.1, r.2);
        ended = refl;
        answer = answers.answer;
      })

  cached-Completes :
      (cached : Option ℕ) (again : Option (TranslationResult × Bus D × Mmu)) (b : Bus D) (mmu : Mmu)
      (va : ℕ) (kind : MmuAccessKind)
      → ((pa : ℕ) → cached ≡ some pa → pa % 4096 ≡ va % 4096)
      → Completes D va kind again
      → Completes D va kind (elim cached [
        | none ↦ again
        | some physical ↦ some (record { physical_address = some physical; fault = none }, b, mmu)
      ])
  cached-Completes none again b mmu va kind h c = c
  cached-Completes (some pa) again b mmu va kind h c = record {
    result = (record { physical_address = some pa; fault = none }, b, mmu);
    ended = refl;
    answer = (h pa refl, refl);
  }

  -- On a well-formed bus of steady devices one walk is enough: whatever fuel above zero it is given,
  -- the translation of any address, for any access in any context, ends, either with an address of
  -- the same offset in its page and no fault, or with no address and the page fault of that kind of
  -- access at that address.
  pub translate-Completes :
      (fuel : ℕ) (b : Bus D) (mmu : Mmu) (va : ℕ) (w : AccessWidth) (kind : MmuAccessKind)
      (context : MmuContext)
      → Steady
      → IsWellFormed b
      → Completes D va kind (translate ops (suc fuel) b mmu va w kind context)
  unfolding translate
  translate-Completes fuel b mmu va w kind context s o =
      let cached = lookup_tlb mmu va kind context in
      let bare : Completes D va kind
          (some (record { physical_address = some va; fault = none }, b, mmu)) =
        record {
          result = (record { physical_address = some va; fault = none }, b, mmu);
          ended = refl;
          answer = (refl, refl);
        } in
      let refused : Completes D va kind
          (some (record { physical_address = none; fault = some (page_fault kind va) }, b, mmu)) =
        record {
          result = (record { physical_address = none; fault = some (page_fault kind va) }, b, mmu);
          ended = refl;
          answer = refl;
        } in
      ground (
        arith,
        bare,
        refused,
        cached-Completes cached.0 (translate_loop ops (suc fuel) b cached.1 va kind context) b
            cached.1 va kind (lookup_tlb-offset mmu va kind context)
            (loop-Completes fuel b cached.1 va kind context s o),
      )
