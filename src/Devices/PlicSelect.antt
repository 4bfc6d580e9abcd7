-- ===== src/Devices/PlicSelect.antt =====
-- src/devices/plic.cpp, `select`: the source that a context is offered.
use homemade_risc_v_64_vecto.Base.{
  ℕ, zero, suc, ◌+◌, ◌<◌, ◌≤◌, ◌≡◌, refl, ◌⊎◌, inl, inr, true, false, ◌==◌, arith, get_or,
  Bool-cases, ap,
}
use native.Mathlib.Numerals.{unary_clauses}
use homemade_risc_v_64_vecto.Devices.Plic.{
  Plic, source_count, is_candidate, consider, select_loop, select,
}

abbrev pub priority_of : Plic → ℕ → ℕ
priority_of p s = get_or p.priority s 0

-- `s` is the best of the sources below `n`: none if it is 0, else a candidate of the greatest
-- priority, the first of those that share it.
pub record IsBest (p : Plic) (context n s : ℕ) : Type 0 where
  pub below : s < n
  pub chosen : (s ≡ 0) ⊎ (is_candidate p context s ≡ true)
  pub best :
      (t : ℕ)
      → 1 ≤ t
      → t < n
      → is_candidate p context t ≡ true
      → (1 ≤ s)
        × ((priority_of p t < priority_of p s) ⊎ ((priority_of p t ≡ priority_of p s) × (s ≤ t)))

consider-best :
    (p : Plic) (context n s : ℕ)
    → 1 ≤ n
    → IsBest p context n s
    → (t : ℕ) → 1 ≤ t
    → t < n + 1
    → is_candidate p context t ≡ true
    → (t == n ≡ true) ⊎ (t == n ≡ false)
    → (1 ≤ consider p context n s)
      × ((priority_of p t < priority_of p (consider p context n s))
          ⊎ ((priority_of p t ≡ priority_of p (consider p context n s))
              × (consider p context n s ≤ t)))
unfolding consider
consider-best p context n s h b t l u k (inl e) =
    let same : t ≡ n = ground arith in
    let here = ap (is_candidate p context) same in
    let value = ap (priority_of p) same in ground (arith, b.below, here, value)
consider-best p context n s h b t l u k (inr e) =
    ground (arith, b.best t l (ground arith) k, b.below)

consider-IsBest :
    (p : Plic) (context n s : ℕ)
    → 1 ≤ n
    → IsBest p context n s
    → IsBest p context (n + 1) (consider p context n s)
unfolding consider
consider-IsBest p context n s h b = record {
  below = ground (arith, b.below);
  chosen = ground (arith, b.chosen);
  best = λ t l u k. consider-best p context n s h b t l u k (Bool-cases (t == n));
}

select_loop-IsBest :
    (left : ℕ) (p : Plic) (context n s : ℕ)
    → 1 ≤ n
    → IsBest p context n s
    → IsBest p context (n + left) (select_loop left p context n s)
unfolding select_loop
select_loop-IsBest zero p context n s h b = simp unary_clauses b
select_loop-IsBest (suc left) p context n s h b =
    let moved : n + suc left ≡ n + 1 + left = omega arith in
    rw moved (
      select_loop-IsBest left p context (n + 1) (consider p context n s) (omega arith)
        (consider-IsBest p context n s h b))

-- A context is offered no source exactly when none is a candidate; the source that it is offered is
-- a candidate of the greatest priority, and of those the one with the least number.
pub select-IsBest :
    (p : Plic) (context : ℕ) → IsBest p context (source_count + 1) (select p context)
unfolding select
select-IsBest p context =
    select_loop-IsBest source_count p context 1 0 (omega arith)
      (record { below = omega arith; chosen = inl refl; best = λ t l u k. absurd (omega arith) })
