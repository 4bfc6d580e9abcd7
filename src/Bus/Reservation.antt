-- ===== src/Bus/Reservation.antt =====
-- src/bus/bus.cpp, load_reserved and store_conditional: the reservation monitor.
use homemade_risc_v_64_vecto.Base.{
  ℕ, zero, suc, ◌≤◌, ◌≡◌, refl, sym, true, false, none, some, List, [], ◌∷◌, get_elem?, set, arith,
  ==_refl, if◌then◌else◌,
}
use homemade_risc_v_64_vecto.Bus.Access.{
  AccessWidth, width_in_bytes, is_ok, success_with, atomic, byte, half_word, word, double_word,
  unnamed,
}
use homemade_risc_v_64_vecto.Bus.Range.{max_u64}
use homemade_risc_v_64_vecto.Bus.Region.{Region, RegionOps}
use homemade_risc_v_64_vecto.Bus.Routing.{
  Bus, found, locate, put_device, next_token, invalidate_reservation, load_reserved,
  store_conditional, reservation_base, granule_bytes, is_valid_token, reservation_matches,
}
use homemade_risc_v_64_vecto.Bus.Layout.{Ordered, IsWellFormed}
use homemade_risc_v_64_vecto.Bus.Locate.{locate-found_iff}

width-le : (w : AccessWidth) → width_in_bytes w ≤ 8
width-le byte = omega arith
width-le half_word = omega arith
width-le word = omega arith
width-le double_word = omega arith
width-le (unnamed n) = omega arith

module _ {D : Type 0} where
  pub Ordered-set :
      (lo : ℕ) (rs : List (Region D)) (i : ℕ) (r : Region D) (d : D)
      → get_elem? rs i ≡ some r
      → Ordered lo rs
      → Ordered lo (set rs i (record r { device = d }))
  Ordered-set lo [] i r d e o = tt
  Ordered-set lo (x ∷ xs) zero r d e o = ground arith
  Ordered-set lo (x ∷ xs) (suc i) r d e o =
      ground (arith, Ordered-set x.range.end_exclusive xs i r d e)

  get_elem?-set :
      (rs : List (Region D)) (i : ℕ) {r : Region D} (s : Region D)
      → get_elem? rs i ≡ some r
      → get_elem? (set rs i s) i ≡ some s
  get_elem?-set [] i s e = cc
  get_elem?-set (x ∷ xs) zero s e = refl
  get_elem?-set (x ∷ xs) (suc i) s e = get_elem?-set xs i s e

  -- Routing does not look at the devices: after a call the same access goes to the same region.
  pub locate_again :
      (b : Bus D) (a : ℕ) (w : AccessWidth) {i off : ℕ} {r : Region D} (d : D) (v : Bus D)
      → IsWellFormed b
      → a ≤ max_u64
      → locate b a w ≡ found i r off
      → v.regions ≡ (put_device b i r d).regions
      → locate v a w ≡ found i (record r { device = d }) off
  locate_again b a w {i} {off} {r} d v o h e q =
      let g = (locate-found_iff b a w i off r o h).0 e in
      let ordered = Ordered-set 0 b.regions i r d g.1 o in
      (locate-found_iff v a w i off (record r { device = d }) (rw q ordered) h).1
        (g.0, rw q (get_elem?-set b.regions i (record r { device = d }) g.1), g.2)

  no_reservation : (b : Bus D) → b.reservation ≡ none → record b { reservation = none } ≡ b
  no_reservation b e = λ i. record {
    regions = b.regions;
    reservation = sym e i;
    next_reservation_token = b.next_reservation_token;
  }

  invalidate-regions : (b : Bus D) (a n : ℕ) → (invalidate_reservation b a n).regions ≡ b.regions
  unfolding invalidate_reservation
  invalidate-regions b a n = ground arith

module _ {D : Type 0} (ops : RegionOps D) where
  store_conditional-reservation :
      (b : Bus D) (t a : ℕ) (w : AccessWidth) (v : ℕ)
      → (store_conditional ops b t a w v).1.reservation ≡ none
  unfolding store_conditional
  store_conditional-reservation b t a w v = ground arith

  pub store_conditional-none :
      (b : Bus D) (t a : ℕ) (w : AccessWidth) (v : ℕ)
      → b.reservation ≡ none
      → ((store_conditional ops b t a w v).0.exchanged ≡ false)
        × ((store_conditional ops b t a w v).1 ≡ b)
  unfolding store_conditional
  store_conditional-none b t a w v e = ground (arith, no_reservation b e)

  -- A store-conditional consumes the reservation whatever its outcome: another one, with any token
  -- and any address, then reports no exchange and leaves the bus as it is.
  pub store_conditional_consumes :
      (b : Bus D) (t a : ℕ) (w : AccessWidth) (v t' a' : ℕ) (w' : AccessWidth) (v' : ℕ)
      → let b1 = (store_conditional ops b t a w v).1 in
        let again = store_conditional ops b1 t' a' w' v' in
        (again.0.exchanged ≡ false) × (again.1 ≡ b1)
  store_conditional_consumes b t a w v t' a' w' v' =
      store_conditional-none (store_conditional ops b t a w v).1 t' a' w' v'
        (store_conditional-reservation b t a w v)

  pub load_reserved-found :
      (b : Bus D) (a : ℕ) (w : AccessWidth) {i off : ℕ} {r : Region D}
      → locate b a w ≡ found i r off
      → is_ok (ops.read r.device off w atomic).0 ≡ true
      → let b1 = put_device b i r (ops.read r.device off w atomic).1 in
        let t = (next_token b1).0 in
        ((load_reserved ops b a w).0.token ≡ t)
        × ((load_reserved ops b a w).1.regions ≡ b1.regions)
        × ((load_reserved ops b a w).1.reservation
            ≡ some (record {
              token = t;
              load_address = a;
              reserved_base = reservation_base a;
              size = granule_bytes;
            }))
  unfolding load_reserved next_token
  load_reserved-found b a w e good = ground arith

  locate_unreserved :
      (b : Bus D) (a : ℕ) (w : AccessWidth)
      → locate (record b { reservation = none }) a w ≡ locate b a w
  unfolding locate
  locate_unreserved b a w = refl

  store_conditional-found :
      (b : Bus D) (t a : ℕ) (w : AccessWidth) (v : ℕ) {i off : ℕ} {r : Region D}
      → locate b a w ≡ found i r off
      → reservation_matches ops b.reservation t a (width_in_bytes w) ≡ true
      → let stored = ops.write r.device off w v atomic in
        ((store_conditional ops b t a w v).0
          ≡ (if is_ok stored.0 then success_with 0 true else stored.0))
        × ((store_conditional ops b t a w v).1.regions
            ≡ set b.regions i (record r { device = stored.1 }))
  unfolding store_conditional
  store_conditional-found b t a w v e m = ground (arith, locate_unreserved b a w)

  next_token-valid :
      (b : Bus D) → b.next_reservation_token ≤ max_u64 → is_valid_token (next_token b).0 ≡ true
  unfolding next_token
  next_token-valid b h = ground arith

  -- A load-reserved whose read succeeds, followed at once by a store-conditional to the same
  -- address with the token that it returned, gives the device exactly that write; the store reports
  -- an exchange if the device accepts it, and otherwise the device's error.
  pub load_then_store :
      (b : Bus D) (a : ℕ) (w : AccessWidth) (v : ℕ) {i off : ℕ} {r : Region D}
      → IsWellFormed b
      → a ≤ max_u64
      → b.next_reservation_token ≤ max_u64
      → locate b a w ≡ found i r off
      → is_ok (ops.read r.device off w atomic).0 ≡ true
      → let l = load_reserved ops b a w in
        let s = store_conditional ops l.1 l.0.token a w v in
        let stored = ops.write (ops.read r.device off w atomic).1 off w v atomic in
        (s.0 ≡ (if is_ok stored.0 then success_with 0 true else stored.0))
        × (s.1.regions ≡ set l.1.regions i (record r { device = stored.1 }))
  load_then_store b a w v {i} {off} {r} o h k e good =
      let d = (ops.read r.device off w atomic).1 in
      let b1 = put_device b i r d in
      let l = load_reserved ops b a w in
      let (token, regions, reserved) = load_reserved-found b a w e good in
      let valid = next_token-valid b1 k in
      let again = locate_again b a w d l.1 o h e regions in
      store_conditional-found l.1 l.0.token a w v again (
        rw (reserved, token)
          (ground (
            arith,
            width-le w,
            ==_refl (next_token b1).0,
            ==_refl a,
            ==_refl (reservation_base a),
            valid,
          )))
