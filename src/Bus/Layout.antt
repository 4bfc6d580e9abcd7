-- ===== src/Bus/Layout.antt =====
-- src/bus/bus.cpp, `Bus::register_region`: the regions of a bus stay valid, disjoint and sorted.
use mathlib.Core.List.{Perm}
use mathlib.Core.List.Perm
use homemade_risc_v_64_vecto.Base.{
  ℕ, ◌≤◌, ◌≡◌, ◌⊎◌, ◌↔◌, All, true, refl, ap, ◌∙◌, inl, inr, ◌≢◌, false, some, List, [], ◌∷◌, ◌++◌,
  arith, ltb, Bool-cases, if◌then◌else◌,
}
use homemade_risc_v_64_vecto.Bus.Access.{is_ok}
use homemade_risc_v_64_vecto.Bus.Range.{IsRange}
use homemade_risc_v_64_vecto.Bus.Region.{Region}
use homemade_risc_v_64_vecto.Bus.Routing.{
  Bus, insert_by_base, sort_by_base, any_overlap, register_region,
}

module _ {D : Type 0} where
  -- From `lo` upwards: valid ranges, each one above the end of the one before.
  abbrev pub Ordered : ℕ → List (Region D) → Type 0
  Ordered lo [] = Unit {0}
  Ordered lo (r ∷ rs) = IsRange r.range × (lo ≤ r.range.base) × Ordered r.range.end_exclusive rs

  abbrev pub IsWellFormed : Bus D → Type 0
  IsWellFormed b = Ordered 0 b.regions

  insert-Ordered :
      (lo : ℕ) (r : Region D) (rs : List (Region D))
      → IsRange r.range
      → lo ≤ r.range.base
      → any_overlap r rs ≡ false
      → Ordered lo rs
      → Ordered lo (insert_by_base r rs)
  unfolding insert_by_base any_overlap
  insert-Ordered lo r [] v h e o = (v, h, tt)
  insert-Ordered lo r (s ∷ rs) v h e o = ground (arith, insert-Ordered s.range.end_exclusive r rs v)

  insert_insert :
      (lo : ℕ) (x r : Region D) (xs : List (Region D))
      → IsRange x.range
      → x.range.base ≢ r.range.base
      → Ordered x.range.end_exclusive xs
      → insert_by_base x (insert_by_base r xs) ≡ insert_by_base r (x ∷ xs)
  unfolding insert_by_base
  insert_insert lo x r [] v ne o = ground arith
  insert_insert lo x r (s ∷ xs) v ne o = ground arith

  sort_append :
      (lo : ℕ) (xs : List (Region D)) (r : Region D)
      → IsRange r.range
      → Ordered lo xs
      → any_overlap r xs ≡ false
      → sort_by_base (xs ++ (r ∷ [])) ≡ insert_by_base r xs
  unfolding sort_by_base any_overlap
  sort_append lo [] r v o e = refl
  sort_append lo (x ∷ xs) r v o e =
      ap (insert_by_base x) (sort_append x.range.end_exclusive xs r v o.2 (ground arith))
      ∙ insert_insert lo x r xs o.0 (ground arith) o.2

  register_region-IsWellFormed :
      (b : Bus D) (r : Region D)
      → IsRange r.range
      → IsWellFormed b
      → IsWellFormed (register_region b (some r)).1
  unfolding register_region
  register_region-IsWellFormed b r v o = elim (Bool-cases (any_overlap r b.regions)) [
    | inl e ↦ rw e o
    | inr e ↦
        rw (e, sort_append 0 b.regions r v o e) (insert-Ordered 0 r b.regions v (omega arith) e o)
  ]

  insert-perm : (r : Region D) (rs : List (Region D)) → Perm (insert_by_base r rs) (r ∷ rs)
  unfolding insert_by_base
  insert-perm r [] = Perm.refl _
  insert-perm r (s ∷ rs) = elim (Bool-cases (ltb r.range.base s.range.base)) [
    | inl e ↦ rw e (Perm.refl _)
    | inr e ↦ rw e (Perm.trans (Perm.cons s (insert-perm r rs)) (Perm.swap r s rs))
  ]

  -- Two regions have no byte in common: one ends before the other begins.
  abbrev pub Apart : Region D → Region D → Type 0
  Apart r s = (r.range.end_exclusive ≤ s.range.base) ⊎ (s.range.end_exclusive ≤ r.range.base)

  any_overlap-Apart :
      (r : Region D) (rs : List (Region D)) → (any_overlap r rs ≡ false) ↔ All (Apart r) rs
  unfolding any_overlap
  any_overlap-Apart r [] = (λ e. tt, λ a. refl)
  any_overlap-Apart r (s ∷ rs) =
      let (apart, clear) = any_overlap-Apart r rs in
      (λ e. (ground arith, apart (ground arith)), λ a. ground (arith, a.0, clear a.1))

  register_region-accepts :
      (b : Bus D) (r : Region D)
      → (is_ok (register_region b (some r)).0 ≡ true) ↔ (any_overlap r b.regions ≡ false)
  unfolding register_region
  register_region-accepts b r = ground arith

  -- Registering a valid region keeps the regions valid, disjoint and sorted. It is accepted exactly
  -- when it ends before or begins after each region that is registered; the bus then has the new
  -- region beside the old ones, and otherwise just the old ones.
  pub register_region_sound :
      (b : Bus D) (r : Region D)
      → IsRange r.range
      → IsWellFormed b
      → IsWellFormed (register_region b (some r)).1
        × ((is_ok (register_region b (some r)).0 ≡ true) ↔ All (Apart r) b.regions)
        × Perm
            (register_region b (some r)).1.regions
            (if is_ok (register_region b (some r)).0 then r ∷ b.regions else b.regions)
  unfolding register_region
  register_region_sound b r v o =
      let (accepts, accepted) = register_region-accepts b r in
      let (apart, clear) = any_overlap-Apart r b.regions in
      (
        register_region-IsWellFormed b r v o,
        (λ e. apart (accepts e), λ a. accepted (clear a)),
        elim (Bool-cases (any_overlap r b.regions)) [
          | inl e ↦ rw e (Perm.refl _)
          | inr e ↦ rw (e, sort_append 0 b.regions r v o e) (insert-perm r b.regions)
        ],
      )
