-- ===== src/Bus/Upkeep.antt =====
-- src/bus/bus.cpp: reads, writes and exchanges keep the regions of the bus valid and in order.
use homemade_risc_v_64_vecto.Base.{
  ℕ, suc, ◌+◌, ◌≡◌, refl, inl, inr, Bool-cases, Bool, true, false, if◌then◌else◌, some, List, [],
  ◌∷◌, get_elem?, arith,
}
use homemade_risc_v_64_vecto.Bus.Access
use homemade_risc_v_64_vecto.Bus.Access.{width_in_bytes, AccessWidth, AccessType, AccessResult}
use homemade_risc_v_64_vecto.Bus.Range.{contains}
use homemade_risc_v_64_vecto.Bus.Region.{RegionOps, Region}
use homemade_risc_v_64_vecto.Bus.Routing.{
  Bus, Located, ReservationRecord, found, failed, locate, locate_in, put_device,
  invalidate_reservation,
}
use homemade_risc_v_64_vecto.Bus.Routing
use homemade_risc_v_64_vecto.Bus.Layout.{IsWellFormed}
use homemade_risc_v_64_vecto.Bus.Reservation.{Ordered-set}

module _ {D : Type 0} where
  -- The region that routing found stands at its index, counted from the first index of the list.
  record StandsAt (rs : List (Region D)) (i k : ℕ) (r : Region D) : Type 0 where
    index : ℕ
    shifted : k ≡ i + index
    there : get_elem? rs index ≡ some r

  locate_in-StandsAt :
      (rs : List (Region D)) (i k a n off : ℕ) (r : Region D)
      → locate_in rs i a n ≡ found k r off
      → StandsAt rs i k r
  unfolding locate_in
  locate_in-StandsAt [] i k a n off r e = cc
  locate_in-StandsAt (x ∷ xs) i k a n off r e = elim (Bool-cases (contains x.range a)) [
    | inl c ↦ record { index = 0; shifted = ground arith; there = ground arith }
    | inr c ↦
        let rest = locate_in-StandsAt xs (suc i) k a n off r (ground arith) in
        record { index = suc rest.index; shifted = omega (arith, rest.shifted); there = rest.there }
  ]

  found-there :
      (b : Bus D) (a : ℕ) (w : AccessWidth) (k off : ℕ) (r : Region D)
      → locate b a w ≡ found k r off
      → get_elem? b.regions k ≡ some r
  unfolding locate
  found-there b a w k off r e =
      let s = locate_in-StandsAt b.regions 0 k a (width_in_bytes w) off r (ground arith) in
      let same : k ≡ s.index = omega (arith, s.shifted) in rw same s.there

  put_device-IsWellFormed :
      (b : Bus D) (a : ℕ) (w : AccessWidth) (k off : ℕ) (r : Region D) (d : D)
      → IsWellFormed b
      → locate b a w ≡ found k r off
      → IsWellFormed (put_device b k r d)
  put_device-IsWellFormed b a w k off r d valid e =
      Ordered-set 0 b.regions k r d (found-there b a w k off r e) valid

  invalidate_reservation-regions :
      (b : Bus D) (a n : ℕ) → (invalidate_reservation b a n).regions ≡ b.regions
  unfolding invalidate_reservation
  invalidate_reservation-regions b a n = ground arith

  -- The two ends of a call: refused with the bus as it was, or routed to a device.
  routed :
      (b : Bus D) (a : ℕ) (w : AccessWidth) (l : Located D)
      (f : ℕ → Region D → ℕ → AccessResult × Bus D)
      → IsWellFormed b
      → locate b a w ≡ l
      → ((i off : ℕ) (r : Region D) → locate b a w ≡ found i r off → IsWellFormed (f i r off).1)
      → IsWellFormed
          (elim l as (λ x. AccessResult × Bus D) [
            | failed e ↦ (Access.failure e, b)
            | found i r off ↦ f i r off
          ]).1
  routed b a w (failed e) f valid q h = valid
  routed b a w (found i r off) f valid q h = h i off r q

  if_kept :
      (test : Bool) (x y : AccessResult × Bus D)
      → IsWellFormed x.1
      → IsWellFormed y.1
      → IsWellFormed (if test then x else y).1
  if_kept true x y h k = h
  if_kept false x y h k = k

  invalidated : (b : Bus D) (a n : ℕ) → IsWellFormed b → IsWellFormed (invalidate_reservation b a n)
  invalidated b a n valid = rw (invalidate_reservation-regions b a n) valid

module _ {D : Type 0} (ops : RegionOps D) where
  pub read-IsWellFormed :
      (b : Bus D) (a : ℕ) (w : AccessWidth) (t : AccessType)
      → IsWellFormed b
      → IsWellFormed (Routing.read ops b a w t).1
  unfolding Routing.read
  read-IsWellFormed b a w t valid =
      routed b a w (locate b a w) _ valid refl
        (λ i off r q. put_device-IsWellFormed b a w i off r _ valid q)

  pub compare_exchange-IsWellFormed :
      (b : Bus D) (a : ℕ) (w : AccessWidth) (x y : ℕ) (t : AccessType)
      → IsWellFormed b
      → IsWellFormed (Routing.compare_exchange ops b a w x y t).1
  unfolding Routing.compare_exchange
  compare_exchange-IsWellFormed b a w x y t valid =
      routed b a w (locate b a w) _ valid refl λ i off r q.
        let kept =
          put_device-IsWellFormed b a w i off r (ops.compare_exchange r.device off w x y t).1 valid
            q in
        if_kept _ _ _ (invalidated _ a (width_in_bytes w) kept) kept
