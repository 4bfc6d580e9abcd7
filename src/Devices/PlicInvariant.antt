-- ===== src/Devices/PlicInvariant.antt =====
-- src/devices/plic.cpp: the sizes of the arrays and the ranges of what they hold.
use homemade_risc_v_64_vecto.Base.{
  ℕ, ◌+◌, ◌-◌, ◌/◌, ◌^◌, ◌<◌, ◌≡◌, ◌∙◌, bit_and, u8, u32, Bool, true, false, arith, List, get_or,
  set, length, length-set, All, All-set,
}
use homemade_risc_v_64_vecto.Base.Bits.{bit_and_mask}
use homemade_risc_v_64_vecto.Devices.Plic.{
  Plic, set_source_level, select, claim, complete, read, write, write_enable, write_threshold,
}
use homemade_risc_v_64_vecto.Devices.PlicLaws.{Event, drive, load, store, respond}

-- The arrays have the size of the code's, and what is held is within the source numbers.
pub record IsPlic (p : Plic) : Type 0 where
  pub priorities : length p.priority ≡ 32
  pub levels : length p.level ≡ 32
  pub pendings : length p.pending ≡ 32
  pub claims : length p.claimed_by ≡ 32
  pub enables : length p.enable ≡ 2
  pub thresholds : length p.threshold ≡ 2
  pub small_priorities : All (λ x. x < 8) p.priority
  pub small_thresholds : All (λ x. x < 8) p.threshold
  pub owners : All (λ x. x < 3) p.claimed_by

claim-IsPlic : (p : Plic) (context : ℕ) → context < 2 → IsPlic p → IsPlic (claim p context).1
unfolding claim
claim-IsPlic p context c i =
    let s = select p context in
    let owner : u8 (context + 1) < 3 = omega arith in
    let taken : IsPlic (record p {
      pending = set p.pending s false;
      claimed_by = set p.claimed_by s (u8 (context + 1));
    }) =
      record {
        priorities = i.priorities;
        levels = i.levels;
        pendings = length-set p.pending s false ∙ i.pendings;
        claims = length-set p.claimed_by s (u8 (context + 1)) ∙ i.claims;
        enables = i.enables;
        thresholds = i.thresholds;
        small_priorities = i.small_priorities;
        small_thresholds = i.small_thresholds;
        owners = All-set (λ x. x < 3) p.claimed_by s (u8 (context + 1)) owner i.owners;
      } in
    ground (arith, taken)

complete-IsPlic : (p : Plic) (context value : ℕ) → IsPlic p → IsPlic (complete p context value)
unfolding complete
complete-IsPlic p context value i =
    let s = u32 value in
    let freed : IsPlic (record p {
      claimed_by = set p.claimed_by s 0;
      pending = set p.pending s (get_or p.level s false);
    }) =
      record {
        priorities = i.priorities;
        levels = i.levels;
        pendings = length-set p.pending s (get_or p.level s false) ∙ i.pendings;
        claims = length-set p.claimed_by s 0 ∙ i.claims;
        enables = i.enables;
        thresholds = i.thresholds;
        small_priorities = i.small_priorities;
        small_thresholds = i.small_thresholds;
        owners = All-set (λ x. x < 3) p.claimed_by s 0 (omega arith) i.owners;
      } in
    ground (arith, freed)

drive-IsPlic :
    (p : Plic) (source : ℕ) (asserted : Bool)
    → IsPlic p
    → IsPlic (set_source_level p source asserted)
unfolding set_source_level
drive-IsPlic p source asserted i =
    let changed : (q : List Bool)
        → length q ≡ 32
        → IsPlic (record p { level = set p.level source asserted; pending = q }) =
      λ q e. record {
        priorities = i.priorities;
        levels = length-set p.level source asserted ∙ i.levels;
        pendings = e;
        claims = i.claims;
        enables = i.enables;
        thresholds = i.thresholds;
        small_priorities = i.small_priorities;
        small_thresholds = i.small_thresholds;
        owners = i.owners;
      } in
    ground (
      arith,
      changed p.pending i.pendings,
      changed (set p.pending source true) (length-set p.pending source true ∙ i.pendings),
    )

-- A register write replaces one entry of a list.
write-IsPlic :
    (p : Plic) (priority enable threshold : List ℕ)
    → length priority ≡ 32
    → All (λ x. x < 8) priority
    → length enable ≡ 2
    → length threshold ≡ 2
    → All (λ x. x < 8) threshold
    → IsPlic p
    → IsPlic (record p { priority = priority; enable = enable; threshold = threshold })
write-IsPlic p priority enable threshold a b c d e i = record {
  priorities = a;
  levels = i.levels;
  pendings = i.pendings;
  claims = i.claims;
  enables = c;
  thresholds = d;
  small_priorities = b;
  small_thresholds = e;
  owners = i.owners;
}

write_threshold-IsPlic :
    (p : Plic) (context value : ℕ) → IsPlic p → IsPlic (write_threshold p context value)
write_threshold-IsPlic p context value i =
    let v = bit_and (u32 value) 7 in
    let small : v < 8 = rw (bit_and_mask 3 (u32 value)) (omega arith) in
    write-IsPlic p p.priority p.enable (set p.threshold context v) i.priorities i.small_priorities
      i.enables (length-set p.threshold context v ∙ i.thresholds)
      (All-set (λ x. x < 8) p.threshold context v small i.small_thresholds) i

write_enable-IsPlic :
    (p : Plic) (context value : ℕ) → IsPlic p → IsPlic (write_enable p context value)
write_enable-IsPlic p context value i =
    let v = bit_and (u32 value) (2 ^ 32 - 1 - 1) in
    write-IsPlic p p.priority (set p.enable context v) p.threshold i.priorities i.small_priorities
      (length-set p.enable context v ∙ i.enables) i.thresholds i.small_thresholds i

write_priority-IsPlic :
    (p : Plic) (offset value : ℕ)
    → IsPlic p
    → IsPlic (record p { priority = set p.priority (offset / 4) (bit_and (u32 value) 7) })
write_priority-IsPlic p offset value i =
    let v = bit_and (u32 value) 7 in
    let small : v < 8 = rw (bit_and_mask 3 (u32 value)) (omega arith) in
    write-IsPlic p (set p.priority (offset / 4) v) p.enable p.threshold
      (length-set p.priority (offset / 4) v ∙ i.priorities)
      (All-set (λ x. x < 8) p.priority (offset / 4) v small i.small_priorities) i.enables
      i.thresholds i.small_thresholds i

-- Every event keeps the arrays' sizes, the priorities and thresholds below 8, and each source's
-- holder one of the two contexts or none.
pub respond-IsPlic : (p : Plic) (e : Event) → IsPlic p → IsPlic (respond p e)
unfolding read write
respond-IsPlic p (drive source asserted) i = drive-IsPlic p source asserted i
respond-IsPlic p (load offset w t) i =
    ground (arith, claim-IsPlic p 0 (omega arith) i, claim-IsPlic p 1 (omega arith) i)
respond-IsPlic p (store offset w value t) i = ground (
  arith,
  write_priority-IsPlic p offset value i,
  write_enable-IsPlic p 0 value i,
  write_enable-IsPlic p 1 value i,
  write_threshold-IsPlic p 0 value i,
  write_threshold-IsPlic p 1 value i,
  complete-IsPlic p 0 value i,
  complete-IsPlic p 1 value i,
)
