-- ===== src/Bus/Monitor.antt =====
-- src/bus/bus.cpp, `invalidate_reservation_locked`: what other traffic does to a reservation between
-- a load-reserved and its store-conditional.
use homemade_risc_v_64_vecto.Base.{
  ℕ, ◌+◌, ◌*◌, ◌/◌, ◌≤◌, ◌<◌, ◌≡◌, refl, ap, ◌∙◌, ◌⊎◌, inl, inr, Bool, true, false, none, some,
  List, [], ◌∷◌, All, arith, ltb, Bool-cases, if◌then◌else◌, ◌&&◌, ◌||◌,
}
use homemade_risc_v_64_vecto.Base.Bits.{clear_bits2}
use homemade_risc_v_64_vecto.Bus.Access.{
  AccessWidth, AccessType, BusError, width_in_bytes, is_ok, is_dma_write, atomic,
}
use homemade_risc_v_64_vecto.Bus.Range.{max_u64}
use homemade_risc_v_64_vecto.Bus.Region.{Region, RegionOps}
use homemade_risc_v_64_vecto.Bus.Routing.{
  Bus, Located, found, failed, locate, put_device, invalidate_reservation, read, write,
  compare_exchange, load_reserved, store_conditional, reservation_base, granule_bytes,
  ReservationRecord,
}
use homemade_risc_v_64_vecto.Bus.Locate.{locate-failed}
use homemade_risc_v_64_vecto.Bus.Reservation.{load_reserved-found, store_conditional-none}

-- The bytes `[a, a + n)` meet the granule of the reservation.
abbrev pub touches : ReservationRecord → ℕ → ℕ → Bool
touches v a n = ltb a (v.reserved_base + v.size) && ltb v.reserved_base (a + n)

-- A granule that lies in the 64-bit address space.
abbrev pub IsGranule : ReservationRecord → Type 0
IsGranule v = (0 < v.size) × (v.reserved_base + v.size ≤ max_u64 + 1)

pub reservation_base_lem : (a : ℕ) → a ≤ max_u64 → reservation_base a ≡ a / 8 * 8
unfolding reservation_base
reservation_base_lem a h = clear_bits2 a (omega arith)

-- A transaction of the bus that is neither a load-reserved nor a store-conditional.
pub data Transaction : Type 0 where
  reads : ℕ → AccessWidth → AccessType → Transaction
  writes : ℕ → AccessWidth → ℕ → AccessType → Transaction
  exchanges : ℕ → AccessWidth → ℕ → ℕ → AccessType → Transaction

abbrev pub address_of : Transaction → ℕ
address_of (reads a w t) = a
address_of (writes a w v t) = a
address_of (exchanges a w e d t) = a

module _ {D : Type 0} where
  invalidate_some :
      (b : Bus D) (a n : ℕ) {v : ReservationRecord}
      → b.reservation ≡ some v
      → IsGranule v
      → 0 < n
      → a + n ≤ max_u64 + 1
      → (invalidate_reservation b a n).reservation ≡ (if touches v a n then none else some v)
  unfolding invalidate_reservation
  invalidate_some b a n e g p h = ground arith

  invalidate_none :
      (b : Bus D) (a n : ℕ)
      → b.reservation ≡ none
      → (invalidate_reservation b a n).reservation ≡ none
  unfolding invalidate_reservation
  invalidate_none b a n e = ground arith

  -- A routed access has a width and ends in the address space; an error of the routing is one.
  locate_routed :
      (b : Bus D) (a : ℕ) (w : AccessWidth) {i off : ℕ} {r : Region D}
      → a ≤ max_u64
      → locate b a w ≡ found i r off
      → (0 < width_in_bytes w) × (a + width_in_bytes w ≤ max_u64 + 1)
  unfolding locate
  locate_routed b a w h e = ground arith

  Located-cases :
      (l : Located D)
      → ((i : ℕ) × (r : Region D) × (off : ℕ) × (l ≡ found i r off))
        ⊎ ((e : BusError) × (l ≡ failed e))
  Located-cases (found i r off) = inl (i, r, off, refl)
  Located-cases (failed e) = inr (e, refl)

module _ {D : Type 0} (ops : RegionOps D) where
  write-reservation :
      (b : Bus D) (a : ℕ) (w : AccessWidth) (x : ℕ) (t : AccessType) {v : ReservationRecord}
      → b.reservation ≡ some v
      → IsGranule v
      → a ≤ max_u64
      → (write ops b a w x t).1.reservation ≡ (
          if is_ok (write ops b a w x t).0 && is_dma_write t && touches v a (width_in_bytes w)
          then none
          else some v)
  unfolding write
  write-reservation b a w x t {v} e g h = elim (Located-cases (locate b a w)) [
    | inl (i, r, off, p) ↦
        let (pos, fits) = locate_routed b a w h p in
        let stored = ops.write r.device off w x t in
        ground
          (arith, p, invalidate_some (put_device b i r stored.1) a (width_in_bytes w) e g pos fits)
    | inr (f, p) ↦ ground (arith, p, locate-failed b a w f h p)
  ]

  compare_exchange-reservation :
      (b : Bus D) (a : ℕ) (w : AccessWidth) (x y : ℕ) (t : AccessType) {v : ReservationRecord}
      → b.reservation ≡ some v
      → IsGranule v
      → a ≤ max_u64
      → let result = compare_exchange ops b a w x y t in
        result.1.reservation ≡ (
          if is_ok result.0 && result.0.exchanged && touches v a (width_in_bytes w)
          then none
          else some v)
  unfolding compare_exchange
  compare_exchange-reservation b a w x y t {v} e g h = elim (Located-cases (locate b a w)) [
    | inl (i, r, off, p) ↦
        let (pos, fits) = locate_routed b a w h p in
        let stored = ops.compare_exchange r.device off w x y t in
        ground
          (arith, p, invalidate_some (put_device b i r stored.1) a (width_in_bytes w) e g pos fits)
    | inr (f, p) ↦ ground (arith, p, locate-failed b a w f h p)
  ]

  read-reservation :
      (b : Bus D) (a : ℕ) (w : AccessWidth) (t : AccessType)
      → (read ops b a w t).1.reservation ≡ b.reservation
  unfolding read
  read-reservation b a w t = ground arith

  write-none :
      (b : Bus D) (a : ℕ) (w : AccessWidth) (x : ℕ) (t : AccessType)
      → b.reservation ≡ none
      → (write ops b a w x t).1.reservation ≡ none
  unfolding write invalidate_reservation
  write-none b a w x t e = ground arith

  compare_exchange-none :
      (b : Bus D) (a : ℕ) (w : AccessWidth) (x y : ℕ) (t : AccessType)
      → b.reservation ≡ none
      → (compare_exchange ops b a w x y t).1.reservation ≡ none
  unfolding compare_exchange invalidate_reservation
  compare_exchange-none b a w x y t e = ground arith

  abbrev pub after : Bus D → Transaction → Bus D
  after b (reads a w t) = (read ops b a w t).1
  after b (writes a w x t) = (write ops b a w x t).1
  after b (exchanges a w x y t) = (compare_exchange ops b a w x y t).1

  unfoldable pub run : Bus D → List Transaction → Bus D
  run b [] = b
  run b (e ∷ es) = run (after b e) es

  -- A transaction that takes the reservation away: a DMA write that succeeds, or an exchange that
  -- takes place, on bytes of the granule.
  abbrev pub breaks : ReservationRecord → Bus D → Transaction → Bool
  breaks v b (reads a w t) = false
  breaks v b (writes a w x t) =
      is_ok (write ops b a w x t).0 && is_dma_write t && touches v a (width_in_bytes w)
  breaks v b (exchanges a w x y t) =
      let result = (compare_exchange ops b a w x y t).0 in
      is_ok result && result.exchanged && touches v a (width_in_bytes w)

  unfoldable pub some_breaks : ReservationRecord → Bus D → List Transaction → Bool
  some_breaks v b [] = false
  some_breaks v b (e ∷ es) = breaks v b e || some_breaks v (after b e) es

  after-reservation :
      (b : Bus D) (e : Transaction) {v : ReservationRecord}
      → b.reservation ≡ some v
      → IsGranule v
      → address_of e ≤ max_u64
      → (after b e).reservation ≡ (if breaks v b e then none else some v)
  after-reservation b (reads a w t) e g h = read-reservation b a w t ∙ e
  after-reservation b (writes a w x t) e g h = write-reservation b a w x t e g h
  after-reservation b (exchanges a w x y t) e g h = compare_exchange-reservation b a w x y t e g h

  after-none : (b : Bus D) (e : Transaction) → b.reservation ≡ none → (after b e).reservation ≡ none
  after-none b (reads a w t) e = read-reservation b a w t ∙ e
  after-none b (writes a w x t) e = write-none b a w x t e
  after-none b (exchanges a w x y t) e = compare_exchange-none b a w x y t e

  run-none :
      (b : Bus D) (es : List Transaction) → b.reservation ≡ none → (run b es).reservation ≡ none
  unfolding run
  run-none b [] e = e
  run-none b (x ∷ es) e = run-none (after b x) es (after-none b x e)

  -- Over any sequence of reads, writes and exchanges on the bus, with no load-reserved and no
  -- store-conditional among them, a reservation survives exactly when none of them is a DMA write
  -- that succeeded on its granule or an exchange that took place there. A store that is no DMA write
  -- leaves it, also when it succeeds.
  pub run-reservation :
      (b : Bus D) (es : List Transaction) {v : ReservationRecord}
      → b.reservation ≡ some v
      → IsGranule v
      → All (λ e. address_of e ≤ max_u64) es
      → (run b es).reservation ≡ (if some_breaks v b es then none else some v)
  unfolding run some_breaks
  run-reservation b [] e g h = e
  run-reservation b (x ∷ es) {v} e g h = elim (Bool-cases (breaks v b x)) [
    | inl broken ↦ rw broken (
        run-none (after b x) es
          (after-reservation b x e g h.0 ∙ ap (λ c. if c then none else some v) broken))
    | inr kept ↦ rw kept (
        run-reservation (after b x) es
          (after-reservation b x e g h.0 ∙ ap (λ c. if c then none else some v) kept) g h.1)
  ]

  -- Atomicity of the pair: after a load-reserved that succeeds and any reads, writes and exchanges
  -- in between, with no other load-reserved or store-conditional among them, a store-conditional
  -- with its token can report an exchange only if none of them was a DMA write that succeeded, or
  -- an exchange that took place, on the granule of the load: the eight aligned bytes around its
  -- address, for a word too.
  pub exchange_is_atomic :
      (b : Bus D) (a : ℕ) (w : AccessWidth) (es : List Transaction) (x : ℕ) {i off : ℕ}
      {r : Region D}
      → a ≤ max_u64
      → locate b a w ≡ found i r off
      → is_ok (ops.read r.device off w atomic).0 ≡ true
      → All (λ e. address_of e ≤ max_u64) es
      → let l = load_reserved ops b a w in
        (store_conditional ops (run l.1 es) l.0.token a w x).0.exchanged ≡ true
        → some_breaks
            (record {
              token = l.0.token;
              load_address = a;
              reserved_base = reservation_base a;
              size = granule_bytes;
            })
            l.1
            es
          ≡ false
  exchange_is_atomic b a w es x h p good hs done =
      let l = load_reserved ops b a w in
      let (token, regions, reserved) = load_reserved-found ops b a w p good in
      let v : ReservationRecord = record {
        token = l.0.token;
        load_address = a;
        reserved_base = reservation_base a;
        size = granule_bytes;
      } in
      let fits : IsGranule v = omega (arith, reservation_base_lem a h) in
      let held : l.1.reservation ≡ some v = rw token reserved in
      let left = run-reservation l.1 es held fits hs in
      elim (Bool-cases (some_breaks v l.1 es)) [
        | inl broken ↦
            let gone = left ∙ ap (λ c. if c then none else some v) broken in
            let refused = store_conditional-none ops (run l.1 es) l.0.token a w x gone in cc
        | inr kept ↦ kept
      ]
