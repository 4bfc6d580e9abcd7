-- ===== src/Bus/Routing.antt =====
-- src/bus/bus.cpp: registration, address routing, and the load-reserved/store-conditional monitor.
-- The transaction lock makes each operation one step; a region that the source names by a pointer
-- is named here by its index.
use Prim.Native.String.{String}
use homemade_risc_v_64_vecto.Base.{
  ℕ, suc, ◌+◌, ◌-◌, Bool, true, false, Option, none, some, List, [], ◌∷◌, ◌++◌, ◌&&◌, ◌||◌, not,
  ltb, leb, ◌==◌, if◌then◌else◌, u64, not64, bit_and, set,
}
use homemade_risc_v_64_vecto.Bus.Access.{
  AccessWidth, AccessType, AccessResult, BusError, BusErrorCode, width_in_bytes, is_ok, success,
  success_with, failure, is_dma_write, atomic,
}
use homemade_risc_v_64_vecto.Bus.Range.{contains, contains_span, overlaps, offset_of, max_u64}
use homemade_risc_v_64_vecto.Bus.Region.{Region, RegionOps}

-- A token of zero stands for "no reservation".
abbrev pub is_valid_token : ℕ → Bool
is_valid_token t = not (t == 0)

pub record ReservationRecord : Type 0 where
  pub token : ℕ
  pub load_address : ℕ
  pub reserved_base : ℕ
  pub size : ℕ

pub record Bus (D : Type 0) : Type 0 where
  pub regions : List (Region D)
  pub reservation : Option ReservationRecord
  pub next_reservation_token : ℕ

abbrev pub granule_bytes : ℕ
granule_bytes = 8

unfoldable pub reservation_base : ℕ → ℕ
reservation_base a = bit_and a (not64 (granule_bytes - 1))

abbrev pub make_error : BusErrorCode → ℕ → ℕ → String → BusError
make_error c a n r = record { code = c; address = a; size = n; region = r }

-- Where an access goes: the index, the region and the offset in it, or the error.
pub data Located (D : Type 0) : Type 0 where
  found : ℕ → Region D → ℕ → Located D
  failed : BusError → Located D

module _ {D : Type 0} where
  -- The order in which `std::sort` leaves ranges of distinct bases.
  unfoldable pub insert_by_base : Region D → List (Region D) → List (Region D)
  insert_by_base r [] = r ∷ []
  insert_by_base r (s ∷ rs) =
      if ltb r.range.base s.range.base then r ∷ s ∷ rs else s ∷ insert_by_base r rs

  unfoldable pub sort_by_base : List (Region D) → List (Region D)
  sort_by_base [] = []
  sort_by_base (r ∷ rs) = insert_by_base r (sort_by_base rs)

  unfoldable pub any_overlap : Region D → List (Region D) → Bool
  any_overlap r [] = false
  any_overlap r (s ∷ rs) = overlaps r.range s.range || any_overlap r rs

  unfoldable pub register_region : Bus D → Option (Region D) → AccessResult × Bus D
  register_region b none = (failure (make_error BusErrorCode.invalid_region 0 0 ""), b)
  register_region b (some r) =
      if any_overlap r b.regions
      then (failure (make_error BusErrorCode.region_overlap r.range.base r.range.size r.name), b)
      else (success, record b { regions = sort_by_base (b.regions ++ (r ∷ [])) })

  unfoldable pub locate_in : List (Region D) → ℕ → ℕ → ℕ → Located D
  locate_in [] i a n = failed (make_error BusErrorCode.unmapped a n "")
  locate_in (r ∷ rs) i a n =
      if not (contains r.range a)
      then locate_in rs (suc i) a n
      else if not (contains_span r.range a n)
      then failed (make_error BusErrorCode.out_of_bounds a n r.name)
      else found i r (offset_of r.range a)

  unfoldable pub locate : Bus D → ℕ → AccessWidth → Located D
  locate b a w =
      let n = width_in_bytes w in
      if n == 0
      then failed (make_error BusErrorCode.invalid_width a 0 "")
      else if ltb (max_u64 - (n - 1)) a
      then failed (make_error BusErrorCode.address_overflow a n "")
      else locate_in b.regions 0 a n

  -- The device of region `i` after a call of one of its virtual functions.
  abbrev pub put_device : Bus D → ℕ → Region D → D → Bus D
  put_device b i r d = record b { regions = set b.regions i (record r { device = d }) }

  unfoldable pub invalidate_reservation : Bus D → ℕ → ℕ → Bus D
  invalidate_reservation b a n = elim b.reservation [
    | none ↦ b
    | some v ↦
        if n == 0
        then b
        else let write_last = u64 (a + n - 1) in
          let reserved_last = u64 (v.reserved_base + v.size - 1) in
          if leb a reserved_last && leb v.reserved_base write_last
          then record b { reservation = none }
          else b
  ]

  -- `next_reservation_token_++`, once more if the counter had wrapped to zero.
  unfoldable pub next_token : Bus D → ℕ × Bus D
  next_token b =
      let t = b.next_reservation_token in
      if is_valid_token t
      then (t, record b { next_reservation_token = u64 (t + 1) })
      else (u64 (t + 1), record b { next_reservation_token = u64 (u64 (t + 1) + 1) })

pub record LoadReservedResult : Type 0 where
  pub access : AccessResult
  pub token : ℕ

module _ {D : Type 0} (ops : RegionOps D) where
  unfoldable pub read : Bus D → ℕ → AccessWidth → AccessType → AccessResult × Bus D
  read b a w t = elim (locate b a w) [
    | failed e ↦ (failure e, b)
    | found i r off ↦ let (res, d) = ops.read r.device off w t in (res, put_device b i r d)
  ]

  unfoldable pub write : Bus D → ℕ → AccessWidth → ℕ → AccessType → AccessResult × Bus D
  write b a w v t = elim (locate b a w) [
    | failed e ↦ (failure e, b)
    | found i r off ↦
        let (res, d) = ops.write r.device off w v t in
        let b' = put_device b i r d in
        if is_ok res && is_dma_write t
        then (res, invalidate_reservation b' a (width_in_bytes w))
        else (res, b')
  ]

  unfoldable pub compare_exchange :
      Bus D → ℕ → AccessWidth → ℕ → ℕ → AccessType → AccessResult × Bus D
  compare_exchange b a w expected desired t = elim (locate b a w) [
    | failed e ↦ (failure e, b)
    | found i r off ↦
        let (res, d) = ops.compare_exchange r.device off w expected desired t in
        let b' = put_device b i r d in
        if is_ok res && res.exchanged
        then (res, invalidate_reservation b' a (width_in_bytes w))
        else (res, b')
  ]

  unfoldable pub load_reserved : Bus D → ℕ → AccessWidth → LoadReservedResult × Bus D
  load_reserved b a w = elim (locate b a w) [
    | failed e ↦ (record { access = failure e; token = 0 }, b)
    | found i r off ↦
        let (res, d) = ops.read r.device off w atomic in
        let b' = put_device b i r d in
        if not (is_ok res)
        then (record { access = res; token = 0 }, b')
        else let (t, b'') = next_token b' in
          (
            record { access = res; token = t },
            record b'' {
              reservation = some (record {
                token = t;
                load_address = a;
                reserved_base = reservation_base a;
                size = granule_bytes;
              });
            },
          )
  ]

  -- Whether a store-conditional with this token may write.
  abbrev pub reservation_matches : Option ReservationRecord → ℕ → ℕ → ℕ → Bool
  reservation_matches none t a n = false
  reservation_matches (some v) t a n =
      is_valid_token t
      && v.token == t
      && v.load_address == a
      && reservation_base a == v.reserved_base
      && leb n v.size

  unfoldable pub store_conditional : Bus D → ℕ → ℕ → AccessWidth → ℕ → AccessResult × Bus D
  store_conditional b t a w v =
      let prior = b.reservation in
      let b0 = record b { reservation = none } in
      elim (locate b0 a w) [
        | failed e ↦ (failure e, b0)
        | found i r off ↦
            if not (reservation_matches prior t a (width_in_bytes w))
            then (success_with 0 false, b0)
            else let (res, d) = ops.write r.device off w v atomic in
              let b1 = put_device b0 i r d in
              if not (is_ok res) then (res, b1) else (success_with 0 true, b1)
      ]
