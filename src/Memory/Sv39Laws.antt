-- ===== src/Memory/Sv39Laws.antt =====
-- src/memory/mmu.cpp: what the Sv39 checks and the address composition compute, as arithmetic.
use homemade_risc_v_64_vecto.Base.{
  ℕ, ◌+◌, ◌-◌, ◌*◌, ◌/◌, ◌%◌, ◌^◌, ◌<◌, ◌≤◌, ◌≡◌, sym, ap, ◌∙◌, ◌⊎◌, inl, inr, ◌↔◌, bit_or, bit_and,
  shl64, Bool, ◌≢◌, not, ◌&&◌, ◌||◌, true, leb, ◌==◌, if◌then◌else◌, arith,
}
use homemade_risc_v_64_vecto.Base.Bits.{bit_at, bit_at-lt, bit_and_mask, bit_or_fields}
use homemade_risc_v_64_vecto.Core.Csr.StatusBits.{has_bit-bit_at}
use homemade_risc_v_64_vecto.Core.Trap.{
  PrivilegeMode, user, supervisor, machine, is_user, is_supervisor,
}
use homemade_risc_v_64_vecto.Memory.Sv39.{
  MmuAccessKind, MmuContext, canonical_sv39, permission_allows, superpage_aligned,
  compose_physical_address, page_size_for_level, has, vpn, kind_allowed, is_fetch, pte_user_flag,
  pte_valid, instruction_fetch, load, store, atomic,
}

-- An address passes exactly when its upper 25 bits repeat bit 38: it lies in the lowest or in the
-- highest 2 ^ 38 bytes.
pub canonical_iff :
    (va : ℕ) → va < 2 ^ 64 → (canonical_sv39 va ≡ true) ↔ ((va < 2 ^ 38) ⊎ (2 ^ 64 - 2 ^ 38 ≤ va))
unfolding canonical_sv39
canonical_iff va h = (
  λ e. ground (arith, bit_and_mask 1 (va / 2 ^ 38)),
  λ e. ground (arith, bit_and_mask 1 (va / 2 ^ 38)),
)

-- The four fields of the composed address.
compose_fields :
    (offset a b c : ℕ)
    → offset < 2 ^ 12
    → a < 2 ^ 9
    → b < 2 ^ 9
    → c < 2 ^ 26
    → bit_or (bit_or (bit_or (shl64 c 30) (shl64 b 21)) (shl64 a 12)) offset
      ≡ c * 2 ^ 30 + b * 2 ^ 21 + a * 2 ^ 12 + offset
compose_fields offset a b c ho ha hb hc =
    let c' : shl64 c 30 ≡ c * 2 ^ 30 = omega arith in
    let b' : shl64 b 21 ≡ b * 2 ^ 21 = omega arith in
    let a' : shl64 a 12 ≡ a * 2 ^ 12 = omega arith in
    let high : c * 2 ^ 30 + b * 2 ^ 21 ≡ (c * 2 ^ 9 + b) * 2 ^ 21 = omega arith in
    let middle : (c * 2 ^ 9 + b) * 2 ^ 21 + a * 2 ^ 12 ≡ (c * 2 ^ 18 + b * 2 ^ 9 + a) * 2 ^ 12 =
      omega arith in
    rw
      (
        c',
        b',
        a',
        bit_or_fields 30 c (b * 2 ^ 21) (omega arith),
        high,
        bit_or_fields 21 (c * 2 ^ 9 + b) (a * 2 ^ 12) (omega arith),
        middle,
        bit_or_fields 12 (c * 2 ^ 18 + b * 2 ^ 9 + a) offset ho,
      )
      (omega arith)

-- Whatever the leaf, the offset within the 4 KiB page is kept.
pub compose-offset : (va ppn level : ℕ) → compose_physical_address va ppn level % 4096 ≡ va % 4096
unfolding compose_physical_address
compose-offset va ppn level =
    let a = if level == 0 then bit_and ppn 0x1FF else vpn va 0 in
    let b = if leb level 1 then bit_and (ppn / 2 ^ 9) 0x1FF else vpn va 1 in
    let c = bit_and (ppn / 2 ^ 18) (2 ^ 26 - 1) in
    let small_a : a < 2 ^ 9 = ground (arith, bit_and_mask 9 ppn, bit_and_mask 9 (va / 2 ^ 12)) in
    let small_b : b < 2 ^ 9 =
      ground (arith, bit_and_mask 9 (ppn / 2 ^ 9), bit_and_mask 9 (va / 2 ^ 21)) in
    let small_c : c < 2 ^ 26 = omega (arith, bit_and_mask 26 (ppn / 2 ^ 18)) in
    let offset = bit_and va 4095 in
    let offset_eq : offset ≡ va % 4096 = bit_and_mask 12 va in
    let sum = compose_fields offset a b c (omega arith) small_a small_b small_c in
    omega (arith, sum, offset_eq)

aligned_megapage : (ppn : ℕ) → superpage_aligned ppn 1 ≡ true → ppn % 2 ^ 9 ≡ 0
unfolding superpage_aligned
aligned_megapage ppn h = ground (arith, bit_and_mask 9 ppn)

aligned_gigapage : (ppn : ℕ) → superpage_aligned ppn 2 ≡ true → ppn % 2 ^ 18 ≡ 0
unfolding superpage_aligned
aligned_gigapage ppn h = ground (arith, bit_and_mask 18 ppn)

level_cases : (level : ℕ) → level < 3 → (level ≡ 0) ⊎ (level ≡ 1) ⊎ (level ≡ 2)
level_cases level h = ground arith

-- A leaf of any level, aligned as the walk requires, maps its whole page: the address is the page's
-- base plus the offset within a page of that level.
pub composed_address :
    (va ppn level : ℕ)
    → level < 3
    → ppn < 2 ^ 44
    → superpage_aligned ppn level ≡ true
    → compose_physical_address va ppn level ≡ ppn * 2 ^ 12 + va % page_size_for_level level
unfolding compose_physical_address superpage_aligned
composed_address va ppn level l p h = elim (level_cases level l) [
  | inl z ↦
      rw
        (
          z,
          bit_and_mask 12 va,
          bit_and_mask 9 ppn,
          bit_and_mask 9 (ppn / 2 ^ 9),
          bit_and_mask 26 (ppn / 2 ^ 18),
          compose_fields (va % 2 ^ 12) (ppn % 2 ^ 9) (ppn / 2 ^ 9 % 2 ^ 9) (ppn / 2 ^ 18 % 2 ^ 26)
              (omega arith) (omega arith) (omega arith) (omega arith),
        )
        (omega arith)
  | inr (inl z) ↦
      let low : ppn % 2 ^ 9 ≡ 0 = aligned_megapage ppn (ap (superpage_aligned ppn) (sym z) ∙ h) in
      rw
        (
          z,
          bit_and_mask 12 va,
          bit_and_mask 9 (va / 2 ^ 12),
          bit_and_mask 9 (ppn / 2 ^ 9),
          bit_and_mask 26 (ppn / 2 ^ 18),
          compose_fields (va % 2 ^ 12) (va / 2 ^ 12 % 2 ^ 9) (ppn / 2 ^ 9 % 2 ^ 9)
              (ppn / 2 ^ 18 % 2 ^ 26) (omega arith) (omega arith) (omega arith) (omega arith),
        )
        (omega (arith, low))
  | inr (inr z) ↦
      let low : ppn % 2 ^ 18 ≡ 0 = aligned_gigapage ppn (ap (superpage_aligned ppn) (sym z) ∙ h) in
      rw
        (
          z,
          bit_and_mask 12 va,
          bit_and_mask 9 (va / 2 ^ 12),
          bit_and_mask 9 (va / 2 ^ 21),
          bit_and_mask 26 (ppn / 2 ^ 18),
          compose_fields (va % 2 ^ 12) (va / 2 ^ 12 % 2 ^ 9) (va / 2 ^ 21 % 2 ^ 9)
              (ppn / 2 ^ 18 % 2 ^ 26) (omega arith) (omega arith) (omega arith) (omega arith),
        )
        (omega (arith, low))
]

-- The bits of an entry that an access needs, as numbered in the entry and in mstatus.
abbrev pub Grants : ℕ → MmuAccessKind → ℕ → Type 0
Grants flags instruction_fetch mstatus = bit_at flags 3 ≡ 1
Grants flags load mstatus = (bit_at flags 1 ≡ 1) ⊎ ((bit_at flags 3 ≡ 1) × (bit_at mstatus 19 ≡ 1))
Grants flags store mstatus = (bit_at flags 1 ≡ 1) × (bit_at flags 2 ≡ 1)
Grants flags atomic mstatus = (bit_at flags 1 ≡ 1) × (bit_at flags 2 ≡ 1)

-- Which pages a mode reaches.
abbrev pub Reaches : ℕ → MmuAccessKind → PrivilegeMode → ℕ → Type 0
Reaches flags kind user mstatus = bit_at flags 4 ≡ 1
Reaches flags kind supervisor mstatus =
    (bit_at flags 4 ≡ 0) ⊎ ((kind ≢ instruction_fetch) × (bit_at mstatus 18 ≡ 1))
Reaches flags kind machine mstatus = Unit

flag_test : (flags n : ℕ) → has flags (2 ^ n) ≡ (bit_at flags n == 1)
flag_test flags n = has_bit-bit_at flags n

-- The tests of the code are those of the bits.
record Tests (flags mstatus : ℕ) : Type 0 where
  reads : has flags 2 ≡ (bit_at flags 1 == 1)
  writes : has flags 4 ≡ (bit_at flags 2 == 1)
  executes : has flags 8 ≡ (bit_at flags 3 == 1)
  users : has flags 16 ≡ (bit_at flags 4 == 1)
  sums : has mstatus (2 ^ 18) ≡ (bit_at mstatus 18 == 1)
  mxrs : has mstatus (2 ^ 19) ≡ (bit_at mstatus 19 == 1)
  user_bit : bit_at flags 4 < 2

tests : (flags mstatus : ℕ) → Tests flags mstatus
tests flags mstatus = record {
  reads = flag_test flags 1;
  writes = flag_test flags 2;
  executes = flag_test flags 3;
  users = flag_test flags 4;
  sums = flag_test mstatus 18;
  mxrs = flag_test mstatus 19;
  user_bit = bit_at-lt flags 4;
}

kind_allowed-Grants :
    (flags : ℕ) (kind : MmuAccessKind) (mstatus : ℕ)
    → pte_valid flags ≡ true
    → (kind_allowed flags kind mstatus ≡ true) ↔ Grants flags kind mstatus
unfolding pte_valid
kind_allowed-Grants flags instruction_fetch mstatus valid = ground (arith, tests flags mstatus)
kind_allowed-Grants flags load mstatus valid = ground (arith, tests flags mstatus)
kind_allowed-Grants flags store mstatus valid = ground (arith, tests flags mstatus)
kind_allowed-Grants flags atomic mstatus valid = ground (arith, tests flags mstatus)

-- The two tests on the mode.
abbrev reaches : ℕ → MmuAccessKind → PrivilegeMode → ℕ → Bool
reaches flags kind mode mstatus =
    not (is_user mode && not (has flags pte_user_flag))
    && not (
        is_supervisor mode
        && has flags pte_user_flag
        && (is_fetch kind || not (has mstatus (2 ^ 18))))

reaches-Reaches :
    (flags : ℕ) (kind : MmuAccessKind) (mode : PrivilegeMode) (mstatus : ℕ)
    → (reaches flags kind mode mstatus ≡ true) ↔ Reaches flags kind mode mstatus
reaches-Reaches flags kind user mstatus = ground (arith, tests flags mstatus)
reaches-Reaches flags instruction_fetch supervisor mstatus = ground (arith, tests flags mstatus)
reaches-Reaches flags load supervisor mstatus = ground (arith, tests flags mstatus)
reaches-Reaches flags store supervisor mstatus = ground (arith, tests flags mstatus)
reaches-Reaches flags atomic supervisor mstatus = ground (arith, tests flags mstatus)
reaches-Reaches flags kind machine mstatus = ground arith

permission_allows_tests :
    (flags : ℕ) (kind : MmuAccessKind) (context : MmuContext)
    → (permission_allows flags kind context ≡ true) ↔ (
        (kind_allowed flags kind context.mstatus ≡ true)
        × (reaches flags kind context.privilege context.mstatus ≡ true))
unfolding permission_allows
permission_allows_tests flags kind context = ground arith

-- On a valid entry, whoever asks, a fetch needs X, a load R, or X while MXR is set, and a store or an
-- atomic both R and W. User code reaches only pages marked for it; the supervisor never executes
-- them, and reads or writes them only while SUM is set; machine mode reaches all.
pub permission_allows_iff :
    (flags : ℕ) (kind : MmuAccessKind) (context : MmuContext)
    → pte_valid flags ≡ true
    → (permission_allows flags kind context ≡ true)
      ↔ (Grants flags kind context.mstatus × Reaches flags kind context.privilege context.mstatus)
permission_allows_iff flags kind context valid =
    let (tested, passes) = permission_allows_tests flags kind context in
    let (grants, granted) = kind_allowed-Grants flags kind context.mstatus valid in
    let (reached, within) = reaches-Reaches flags kind context.privilege context.mstatus in
    (λ e. (grants (tested e).0, reached (tested e).1), λ h. passes (granted h.0, within h.1))
