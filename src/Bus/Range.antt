-- ===== src/Bus/Range.antt =====
-- src/bus/address_range.cpp: half-open ranges of physical addresses, built without overflow.
use homemade_risc_v_64_vecto.Base.{
  ℕ, ◌+◌, ◌-◌, ◌^◌, ◌≤◌, ◌<◌, ◌≡◌, ◌⊎◌, Bool, true, false, Option, none, some, ◌&&◌, ◌||◌, not, ◌↔◌,
  ltb, leb, ◌==◌, if◌then◌else◌, sub64, u64, arith,
}

pub record AddressRange : Type 0 where
  pub base : ℕ
  pub size : ℕ
  pub end_exclusive : ℕ

abbrev pub max_u64 : ℕ
max_u64 = 2 ^ 64 - 1

unfoldable pub create : ℕ → ℕ → Option AddressRange
create base size =
    if size == 0
    then none
    else if ltb (max_u64 - size) base
    then none
    else some (record { base = base; size = size; end_exclusive = u64 (base + size) })

abbrev pub contains : AddressRange → ℕ → Bool
contains r a = leb r.base a && ltb a r.end_exclusive

-- The overload of `contains` with a length.
abbrev pub contains_span : AddressRange → ℕ → ℕ → Bool
contains_span r a n = if n == 0 || not (contains r a) then false else leb n (r.end_exclusive - a)

abbrev pub overlaps : AddressRange → AddressRange → Bool
overlaps r s = ltb r.base s.end_exclusive && ltb s.base r.end_exclusive

abbrev pub offset_of : AddressRange → ℕ → ℕ
offset_of r a = sub64 a r.base

-- What `create` guarantees of every range, whose constructor is private.
pub record IsRange (r : AddressRange) : Type 0 where
  pub nonempty : 0 < r.size
  pub ends : r.end_exclusive ≡ r.base + r.size
  pub fits : r.end_exclusive ≤ max_u64

pub create-IsRange :
    (b n : ℕ) {r : AddressRange}
    → n ≤ max_u64
    → create b n ≡ some r
    → IsRange r × (r.base ≡ b) × (r.size ≡ n)
unfolding create
create-IsRange b n h e = ground arith

-- `create` refuses exactly the empty range and those whose end does not fit a 64-bit word.
pub create-none_iff : (b n : ℕ) → n ≤ max_u64 → (create b n ≡ none) ↔ ((n ≡ 0) ⊎ (max_u64 < b + n))
unfolding create
create-none_iff b n h = ground arith

-- The overflow-free test is the plain inclusion of the span in the range.
pub contains_span_iff :
    (r : AddressRange) (a n : ℕ)
    → (contains_span r a n ≡ true) ↔ ((0 < n) × (r.base ≤ a) × (a + n ≤ r.end_exclusive))
contains_span_iff r a n = ground arith
