-- ===== src/Bus/Locate.antt =====
-- src/bus/bus.cpp, `Bus::locate`: on a well-formed bus routing finds exactly the region that
-- holds the whole access, and a failure names its true reason.
use homemade_risc_v_64_vecto.Base.{
  ℕ, zero, suc, ◌+◌, ◌-◌, ◌≤◌, ◌<◌, ◌≡◌, refl, ◌⊎◌, inl, inr, ◌↔◌, true, false, some, List, [], ◌∷◌,
  get_elem?, All, arith, Bool-cases,
}
use homemade_risc_v_64_vecto.Bus.Access.{AccessWidth, BusError, BusErrorCode, width_in_bytes}
use homemade_risc_v_64_vecto.Bus.Range.{IsRange, contains, max_u64}
use homemade_risc_v_64_vecto.Bus.Region.{Region}
use homemade_risc_v_64_vecto.Bus.Routing.{Bus, found, failed, locate_in, locate}
use homemade_risc_v_64_vecto.Bus.Layout.{Ordered, IsWellFormed}

module _ {D : Type 0} where
  pub Ordered-get :
      (lo : ℕ) (rs : List (Region D)) (j : ℕ) {r : Region D}
      → Ordered lo rs
      → get_elem? rs j ≡ some r
      → IsRange r.range × (lo ≤ r.range.base)
  Ordered-get lo [] j o e = cc
  Ordered-get lo (x ∷ xs) zero o e = ground arith
  Ordered-get lo (x ∷ xs) (suc j) o e = ground (arith, Ordered-get x.range.end_exclusive xs j o.2 e)

  -- The span `[a, a + n)` lies in the range of `r`, at offset `off`.
  abbrev pub Holds : Region D → ℕ → ℕ → ℕ → Type 0
  Holds r a n off = (r.range.base ≤ a) × (a + n ≤ r.range.end_exclusive) × (off ≡ a - r.range.base)

  locate_in-holds :
      (lo i j a n : ℕ) (rs : List (Region D)) {r : Region D}
      → Ordered lo rs
      → get_elem? rs j ≡ some r
      → 0 < n
      → r.range.base ≤ a
      → a + n ≤ r.range.end_exclusive
      → locate_in rs i a n ≡ found (i + j) r (a - r.range.base)
  unfolding locate_in
  locate_in-holds lo i j a n [] o e p q s = cc
  locate_in-holds lo i zero a n (x ∷ xs) o e p q s = ground arith
  locate_in-holds lo i (suc j) a n (x ∷ xs) o e p q s = ground (
    arith,
    Ordered-get x.range.end_exclusive xs j o.2 e,
    locate_in-holds x.range.end_exclusive (suc i) j a n xs o.2 e p q s,
  )

  -- What a successful search found.
  record Found (rs : List (Region D)) (i k : ℕ) (r : Region D) (a n off : ℕ) : Type 0 where
    index : ℕ
    shifted : k ≡ i + index
    there : get_elem? rs index ≡ some r
    some_bytes : 0 < n
    holds : Holds r a n off

  locate_in-Found :
      (lo i k a n off : ℕ) (rs : List (Region D)) (r : Region D)
      → Ordered lo rs
      → a ≤ max_u64
      → locate_in rs i a n ≡ found k r off
      → Found rs i k r a n off
  unfolding locate_in
  locate_in-Found lo i k a n off [] r o h e = cc
  locate_in-Found lo i k a n off (x ∷ xs) r o h e = elim (Bool-cases (contains x.range a)) [
    | inl c ↦ record {
      index = 0;
      shifted = ground arith;
      there = ground arith;
      some_bytes = ground arith;
      holds = ground arith;
    }
    | inr c ↦
        let rest =
          locate_in-Found x.range.end_exclusive (suc i) k a n off xs r o.2 h (ground arith) in
        record {
          index = suc rest.index;
          shifted = omega (arith, rest.shifted);
          there = rest.there;
          some_bytes = rest.some_bytes;
          holds = rest.holds;
        }
  ]

  -- On a well-formed bus an access is routed to region `k` at offset `off` exactly when that
  -- region holds the whole access and `off` is its distance from the region's base.
  pub locate-found_iff :
      (b : Bus D) (a : ℕ) (w : AccessWidth) (k off : ℕ) (r : Region D)
      → IsWellFormed b
      → a ≤ max_u64
      → (locate b a w ≡ found k r off) ↔ (
          (0 < width_in_bytes w)
          × (get_elem? b.regions k ≡ some r)
          × Holds r a (width_in_bytes w) off)
  unfolding locate
  locate-found_iff b a w k off r o h = (forth, back)
    where
      n : ℕ
      n = width_in_bytes w

      forth :
          locate b a w ≡ found k r off
          → (0 < n) × (get_elem? b.regions k ≡ some r) × Holds r a n off
      forth e =
          let f = locate_in-Found 0 0 k a n off b.regions r o h (ground arith) in
          let same : k ≡ f.index = omega (arith, f.shifted) in
          (f.some_bytes, rw same f.there, f.holds)

      back :
          (0 < n) × (get_elem? b.regions k ≡ some r) × Holds r a n off
          → locate b a w ≡ found k r off
      back g = ground (
        arith,
        Ordered-get 0 b.regions k {r = r} o g.1,
        locate_in-holds 0 0 k a n b.regions {r = r} o g.1,
      )

  -- The region that contains the first byte but not the whole access.
  abbrev pub Straddles : List (Region D) → ℕ → ℕ → Type 0
  Straddles rs a n =
      (k : ℕ) × (r : Region D) × (get_elem? rs k ≡ some r)
      × (contains r.range a ≡ true)
      × (r.range.end_exclusive < a + n)

  abbrev pub Nowhere : List (Region D) → ℕ → Type 0
  Nowhere rs a = All (λ r. contains r.range a ≡ false) rs

  abbrev pub Unroutable : List (Region D) → ℕ → ℕ → BusErrorCode → Type 0
  Unroutable rs a n c =
      ((c ≡ BusErrorCode.unmapped) × Nowhere rs a)
      ⊎ ((c ≡ BusErrorCode.out_of_bounds) × Straddles rs a n)

  locate_in-failed :
      (i a n : ℕ) (rs : List (Region D)) (e : BusError)
      → 0 < n
      → locate_in rs i a n ≡ failed e
      → Unroutable rs a n e.code × (e.address ≡ a) × (e.size ≡ n)
  unfolding locate_in
  locate_in-failed i a n [] e h p = ground arith
  locate_in-failed i a n (x ∷ xs) e h p = elim (Bool-cases (contains x.range a)) [
    | inl c ↦ (inr (ground arith, (0, x, refl, c, ground arith)), ground arith, ground arith)
    | inr c ↦
        let rest = locate_in-failed (suc i) a n xs e h (ground arith) in
        (
          elim rest.0 [
            | inl u ↦ inl (u.0, (c, u.1))
            | inr (q, (k, r, g, y, z)) ↦ inr (q, (suc k, r, g, y, z))
          ],
          rest.1,
          rest.2,
        )
  ]

  -- A failed routing names its true reason: a width of no bytes, an end beyond the address space,
  -- no region at the address, or a region that ends inside the access. The error carries the
  -- address.
  pub locate-failed :
      (b : Bus D) (a : ℕ) (w : AccessWidth) (e : BusError)
      → a ≤ max_u64
      → locate b a w ≡ failed e
      → (e.address ≡ a)
        × (((e.code ≡ BusErrorCode.invalid_width) × (width_in_bytes w ≡ 0))
            ⊎ ((e.code ≡ BusErrorCode.address_overflow) × (max_u64 + 1 < a + width_in_bytes w))
            ⊎ ((e.code ≡ BusErrorCode.unmapped) × Nowhere b.regions a)
            ⊎ ((e.code ≡ BusErrorCode.out_of_bounds) × Straddles b.regions a (width_in_bytes w)))
  unfolding locate
  locate-failed b a w e h p = ground (arith, locate_in-failed 0 a (width_in_bytes w) b.regions e)
