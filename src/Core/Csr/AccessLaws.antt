-- ===== src/Core/Csr/AccessLaws.antt =====
-- src/core/csr.cpp: what an access may do.
use homemade_risc_v_64_vecto.Base.{
  ℕ, ◌/◌, ◌%◌, ◌^◌, leb, refl, ◌≤◌, ◌≡◌, Bool, true, false, not, ◌||◌, ◌&&◌, ltb, ◌==◌,
  if◌then◌else◌, arith, some, List, [], ◌∷◌, ap, inl, inr, Bool-cases,
}
use homemade_risc_v_64_vecto.Base.Bits.{bit_at, bit_and_mask, high_mask}
use homemade_risc_v_64_vecto.Core.Csr.StatusBits.{has_bit-bit_at}
use homemade_risc_v_64_vecto.Core.Trap.{
  PrivilegeMode, user, supervisor, machine, is_supervisor, privilege_rank,
}
use homemade_risc_v_64_vecto.Core.Csr.Names.{CsrName, code_of, csr_names, find_name, name_of}
use homemade_risc_v_64_vecto.Core.Csr.State.{CsrFile}
use homemade_risc_v_64_vecto.Core.Csr.Context.{floating_state_enabled, vector_state_enabled}
use homemade_risc_v_64_vecto.Core.Csr.Permission.{
  exists, access_allowed, required_rank, is_read_only, is_floating_csr, is_vector_csr,
  counter_denied, satp_denied,
}
use homemade_risc_v_64_vecto.Core.Csr.ReadValue.{read_value}
use homemade_risc_v_64_vecto.Core.Csr.Access.{CsrAccessRequest, access}

find_name-code : (ns : List CsrName) (a : ℕ) {n : CsrName} → find_name ns a ≡ some n → a ≡ code_of n
unfolding find_name
find_name-code [] a e = cc
find_name-code (m ∷ ns) a {n} e = elim (Bool-cases (a == code_of m)) [
  | inl here ↦ let same : m ≡ n = ground arith in ground (arith, ap code_of same)
  | inr there ↦ find_name-code ns a (ground arith)
]

-- The enumerator that is found has the address as its code.
pub name_of-code : (a : ℕ) {n : CsrName} → name_of a ≡ some n → a ≡ code_of n
unfolding name_of
name_of-code a e = find_name-code csr_names a e

-- An access succeeds exactly if it is allowed. It returns the old value of the register if it is
-- allowed and reads, and else 0; if it is not allowed, or does not write, it leaves every register.
pub access_guarded :
    (c : CsrFile) (r : CsrAccessRequest)
    → let allowed = access_allowed c r.address r.privilege r.writes in
      ((access c r).0.succeeded ≡ allowed)
      × ((access c r).0.value ≡ (if allowed && r.reads then read_value c r.address else 0))
      × ((access c r).1 ≡ (if allowed && r.writes then (access c r).1 else c))
unfolding access
access_guarded c r = ground arith

-- The tests of the permission check by the fields of the address and of the registers: the level in
-- bits 9 and 8, the read-only mark in bits 11 and 10, the counter's bits in mcounteren and
-- scounteren, TVM, and the states of the floating-point and vector units in mstatus.
abbrev pub level_open : ℕ → PrivilegeMode → Bool
level_open a p = not (a / 256 % 4 == 2) && leb (a / 256 % 4) (privilege_rank p)

abbrev pub write_open : ℕ → Bool → Bool
write_open a write = not (write && a / 1024 % 4 == 3)

abbrev pub counter_open : CsrFile → ℕ → PrivilegeMode → Bool
counter_open c a machine = true
counter_open c a supervisor = ltb a 0xC00 || ltb 0xC02 a || bit_at c.mcounteren (a % 32) == 1
counter_open c a user =
    ltb a 0xC00
    || ltb 0xC02 a
    || bit_at c.mcounteren (a % 32) == 1 && bit_at c.scounteren (a % 32) == 1

abbrev pub satp_open : CsrFile → ℕ → PrivilegeMode → Bool
satp_open c a p = not (a == 0x180 && is_supervisor p && bit_at c.mstatus 20 == 1)

abbrev pub floating_open : CsrFile → ℕ → Bool
floating_open c a = not (ltb 0 a && leb a 3 && c.mstatus / 2 ^ 13 % 4 == 0)

level_lem :
    (a : ℕ) (p : PrivilegeMode)
    → not (required_rank a == 2 || ltb (privilege_rank p) (required_rank a)) ≡ level_open a p
level_lem a p = rw (bit_and_mask 2 (a / 256)) (ground arith)

write_lem : (a : ℕ) (write : Bool) → not (write && is_read_only a) ≡ write_open a write
write_lem a write = rw (high_mask 10 2 a) (ground arith)

counter_lem :
    (c : CsrFile) (a : ℕ) (p : PrivilegeMode) → not (counter_denied c a p) ≡ counter_open c a p
counter_lem c a machine = ground arith
counter_lem c a supervisor =
    rw (bit_and_mask 5 a) (ground (arith, has_bit-bit_at c.mcounteren (a % 32)))
counter_lem c a user =
    rw (bit_and_mask 5 a)
      (ground (arith, has_bit-bit_at c.mcounteren (a % 32), has_bit-bit_at c.scounteren (a % 32)))

satp_lem : (c : CsrFile) (a : ℕ) (p : PrivilegeMode) → not (satp_denied c a p) ≡ satp_open c a p
satp_lem c a p = ground (arith, has_bit-bit_at c.mstatus 20)

floating_lem :
    (c : CsrFile) (a : ℕ)
    → not (is_floating_csr a && not (floating_state_enabled c)) ≡ floating_open c a
floating_lem c a = rw (bit_and_mask 2 (c.mstatus / 2 ^ 13)) (ground arith)

vector_lem : (c : CsrFile) → vector_state_enabled c ≡ not (c.mstatus / 2 ^ 9 % 4 == 0)
vector_lem c = rw (bit_and_mask 2 (c.mstatus / 2 ^ 9)) refl

abbrev pub vector_open : CsrFile → ℕ → Bool
vector_open c a =
    not (
      (ltb 7 a && leb a 0xA || a == 0xF || leb 0xC20 a && leb a 0xC22)
      && c.mstatus / 2 ^ 9 % 4 == 0)

vector_csr_lem :
    (c : CsrFile) (a : ℕ) → not (is_vector_csr a && not (vector_state_enabled c)) ≡ vector_open c a
vector_csr_lem c a = rw (vector_lem c) (ground arith)

-- The guards in a row, each as what lets it pass.
guards_lem :
    (there float vector low ro counter sat : Bool)
    → (if not there
        then false
        else if float
        then false
        else if vector
        then false
        else if low
        then false
        else if ro
        then false
        else if counter
        then false
        else not sat)
      ≡ (there && not float && not vector && not low && not ro && not counter && not sat)
guards_lem there float vector low ro counter sat = ground arith

-- An access is allowed exactly when the register exists, the mode is at least the level in bits 9
-- and 8 of the address (a level of 2 is refused), a write is not to an address whose bits 11 and 10
-- are set, a register of the floating-point or vector unit finds its unit's state in mstatus not
-- off, a counter below M-mode has its bit in mcounteren and in U-mode also in scounteren, and
-- S-mode reaches satp with TVM clear.
pub access_allowed_lem :
    (c : CsrFile) (a : ℕ) (p : PrivilegeMode) (write : Bool)
    → access_allowed c a p write ≡ (
        exists a
        && floating_open c a
        && vector_open c a
        && level_open a p
        && write_open a write
        && counter_open c a p
        && satp_open c a p)
unfolding access_allowed
access_allowed_lem c a p write =
    rw
      (
        ← floating_lem c a,
        ← vector_csr_lem c a,
        ← level_lem a p,
        ← write_lem a write,
        ← counter_lem c a p,
        ← satp_lem c a p,
      )
      (guards_lem (exists a) (is_floating_csr a && not (floating_state_enabled c))
        (is_vector_csr a && not (vector_state_enabled c))
        (required_rank a == 2 || ltb (privilege_rank p) (required_rank a)) (write && is_read_only a)
        (counter_denied c a p) (satp_denied c a p))

guards_open :
    (there float vector low ro counter sat : Bool)
    → (if not there
        then false
        else if float
        then false
        else if vector
        then false
        else if low
        then false
        else if ro
        then false
        else if counter
        then false
        else not sat)
      ≡ true
    → (there ≡ true)
      × (float ≡ false)
      × (vector ≡ false)
      × (low ≡ false)
      × (ro ≡ false)
      × (counter ≡ false)
      × (sat ≡ false)
guards_open there float vector low ro counter sat e = ground arith

-- An allowed access is to a register that exists, from a mode of at least its level, does not write
-- a read-only one, and finds its context, counter or translation control open to that mode.
pub access_allowed_sound :
    (c : CsrFile) (a : ℕ) (p : PrivilegeMode) (write : Bool)
    → access_allowed c a p write ≡ true
    → (exists a ≡ true)
      × (required_rank a ≤ privilege_rank p)
      × (write && is_read_only a ≡ false)
      × (is_floating_csr a && not (floating_state_enabled c) ≡ false)
      × (is_vector_csr a && not (vector_state_enabled c) ≡ false)
      × (counter_denied c a p || satp_denied c a p ≡ false)
unfolding access_allowed
access_allowed_sound c a p write e =
    let g =
      guards_open (exists a) (is_floating_csr a && not (floating_state_enabled c))
        (is_vector_csr a && not (vector_state_enabled c))
        (required_rank a == 2 || ltb (privilege_rank p) (required_rank a)) (write && is_read_only a)
        (counter_denied c a p) (satp_denied c a p) e in
    (
      g.0,
      rank_open (required_rank a == 2) (required_rank a) (privilege_rank p) g.3,
      g.4,
      g.1,
      g.2,
      or_false (counter_denied c a p) (satp_denied c a p) g.5 g.6,
    )
  where
    rank_open : (b : Bool) (m n : ℕ) → b || ltb n m ≡ false → m ≤ n
    rank_open b m n h = ground arith

    or_false : (x y : Bool) → x ≡ false → y ≡ false → x || y ≡ false
    or_false x y h k = ground arith
