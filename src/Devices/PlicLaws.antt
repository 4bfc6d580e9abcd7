-- ===== src/Devices/PlicLaws.antt =====
-- src/devices/plic.cpp: a claimed source belongs to its context until that context completes it.
use homemade_risc_v_64_vecto.Base.{
  ℕ, ◌+◌, ◌≤◌, ◌≡◌, sym, ap, ◌∙◌, ◌≢◌, inl, inr, u8, u32, Bool, true, false, ◌||◌, ◌&&◌, ◌==◌,
  arith, List, [], ◌∷◌, get_or, Bool-cases, get_or-set_ne,
}
use homemade_risc_v_64_vecto.Bus.Access.{AccessWidth, AccessType}
use homemade_risc_v_64_vecto.Devices.Clint.{is_word}
use homemade_risc_v_64_vecto.Devices.Plic.{
  Plic, context_offset, set_source_level, is_candidate, select, claim, complete, read, write,
}
use homemade_risc_v_64_vecto.Devices.PlicSelect.{select-IsBest}

-- What reaches the controller: a device drives its line, or the processor reads or writes.
pub data Event : Type 0 where
  drive : (source : ℕ) → (asserted : Bool) → Event
  load : (offset : ℕ) → (w : AccessWidth) → (t : AccessType) → Event
  store : (offset : ℕ) → (w : AccessWidth) → (value : ℕ) → (t : AccessType) → Event

abbrev pub respond : Plic → Event → Plic
respond p (drive source asserted) = set_source_level p source asserted
respond p (load offset w t) = (read p offset w t).1
respond p (store offset w value t) = (write p offset w value t).1

abbrev pub respond_all : Plic → List Event → Plic
respond_all p [] = p
respond_all p (e ∷ es) = respond_all (respond p e) es

-- The event completes `source` on `context`.
abbrev pub completes : ℕ → ℕ → Event → Bool
completes context source (store offset w value t) =
    is_word w && offset == context_offset context + 4 && u32 value == source
completes context source _ = false

abbrev pub some_completes : ℕ → ℕ → List Event → Bool
some_completes context source [] = false
some_completes context source (e ∷ es) =
    completes context source e || some_completes context source es

abbrev pub holder : Plic → ℕ → ℕ
holder p source = get_or p.claimed_by source 0

candidate-free : (p : Plic) (context s : ℕ) → is_candidate p context s ≡ true → holder p s ≡ 0
unfolding is_candidate
candidate-free p context s h = ground arith

claim-holder :
    (p : Plic) (context s k : ℕ) → holder p s ≡ k + 1 → holder (claim p context).1 s ≡ k + 1
unfolding claim
claim-holder p context s k h = elim (Bool-cases (select p context == s)) [
  | inl e ↦ elim ((select-IsBest p context).chosen) [
    | inl z ↦ ground arith
    | inr c ↦
        let free = candidate-free p context (select p context) c in
        let same : select p context ≡ s = ground arith in
        absurd (omega (arith, free, ap (holder p) same, h))
  ]
  | inr e ↦
      let other : select p context ≢ s = ground arith in
      ground (arith, get_or-set_ne p.claimed_by (select p context) s (u8 (context + 1)) 0 other)
]

complete-holder :
    (p : Plic) (context value s k : ℕ)
    → holder p s ≡ k + 1
    → (u32 value ≡ s → context ≢ k)
    → holder (complete p context value) s ≡ k + 1
unfolding complete
complete-holder p context value s k h other = elim (Bool-cases (u32 value == s)) [
  | inl e ↦
      let same : u32 value ≡ s = ground arith in
      let different = other same in let here = ap (holder p) same in ground (arith, here)
  | inr e ↦
      let apart : u32 value ≢ s = ground arith in
      ground (arith, get_or-set_ne p.claimed_by (u32 value) s 0 0 apart)
]

-- A store that is no completion by the holder leaves a claim alone.
store-holder :
    (p : Plic) (context offset : ℕ) (w : AccessWidth) (value : ℕ) (t : AccessType) (s k : ℕ)
    → holder p s ≡ k + 1
    → completes k s (store offset w value t) ≡ false
    → is_word w ≡ true
    → offset ≡ context_offset context + 4
    → holder (complete p context value) s ≡ k + 1
store-holder p context offset w value t s k h n one o =
    complete-holder p context value s k h
      (λ e f. let at = ap (λ c. context_offset c + 4) f in ground (arith, at, o, one, e, n))

respond-holder :
    (p : Plic) (e : Event) (s k : ℕ)
    → holder p s ≡ k + 1
    → completes k s e ≡ false
    → holder (respond p e) s ≡ k + 1
unfolding read write set_source_level
respond-holder p (drive source asserted) s k h n = ground arith
respond-holder p (load offset w t) s k h n =
    ground (arith, claim-holder p 0 s k h, claim-holder p 1 s k h)
respond-holder p (store offset w value t) s k h n =
    ground
      (arith, store-holder p 0 offset w value t s k h n, store-holder p 1 offset w value t s k h n)

candidate-held : (p : Plic) (context s k : ℕ) → holder p s ≡ k + 1 → select p context ≡ s → s ≡ 0
candidate-held p context s k h e = elim ((select-IsBest p context).chosen) [
  | inl z ↦ sym e ∙ z
  | inr c ↦
      let free = candidate-free p context (select p context) c in
      absurd (omega (arith, free, ap (holder p) e, h))
]

-- While a context holds a source, whatever else the devices and the processor do short of that
-- context completing it, the context goes on holding it, and neither context is offered it.
pub claim_excludes :
    (es : List Event) (p : Plic) (s k context : ℕ)
    → 1 ≤ s
    → holder p s ≡ k + 1
    → some_completes k s es ≡ false
    → (holder (respond_all p es) s ≡ k + 1) × (select (respond_all p es) context ≢ s)
claim_excludes [] p s k context l h n =
    (h, λ e. absurd (omega (arith, candidate-held p context s k h e)))
claim_excludes (e ∷ es) p s k context l h n =
    claim_excludes es (respond p e) s k context l (respond-holder p e s k h (ground arith))
      (ground arith)
