-- ===== src/Atomics/Interference.antt =====
-- The loops when other threads change the counter between the load and the exchange.
use cu_cascade.Base.{
  ℕ, ◌+◌, ◌-◌, ◌≤◌, ◌<◌, ◌≡◌, refl, ◌⊎◌, inl, inr, none, some, List, [], ◌∷◌, arith, ltb, min, max,
  Bool-cases,
}
use cu_cascade.Base.Words.{word_size, add64}
use cu_cascade.Atomics.{no_room, try_add, add_bounded, update_peak}

-- `v` is the first value that the loop loaded, or one of those that failed exchanges loaded.
abbrev pub Loaded : ℕ → ℕ → List ℕ → Type 0
Loaded v current [] = v ≡ current
Loaded v current (w ∷ observed) = (v ≡ current) ⊎ Loaded v w observed

first : (current : ℕ) (observed : List ℕ) → Loaded current current observed
first current [] = refl
first current (w ∷ observed) = inl refl

-- However often the exchange fails, `try_add` does what it does with no interference at one of the
-- values that it loaded: it takes effect at one instant.
pub try_add_linear :
    (current : ℕ) (observed : List ℕ) (diff upper_bound : ℕ)
    → (v : ℕ) × Loaded v current observed
      × (try_add current observed diff upper_bound ≡ try_add v [] diff upper_bound)
unfolding try_add
try_add_linear current [] diff upper_bound = (current, refl, refl)
try_add_linear current (w ∷ observed) diff upper_bound =
    elim (Bool-cases (no_room current diff upper_bound)) [
      | inl full ↦ (current, inl refl, rw (full, try_add))
      | inr room ↦
          let (v, l, e) = try_add_linear w observed diff upper_bound in (v, inr l, rw room e)
    ]

-- However often the exchange fails, `add_bounded` never adds more than it was asked to, reports what it
-- added, and leaves the counter within the bound if it wrote at all; the value that it adds to is one
-- that it loaded. (What it adds may be less than what fits: `diff` only shrinks from round to round.)
pub add_bounded_within :
    (current : ℕ) (observed : List ℕ) (diff upper_bound : ℕ)
    → upper_bound < word_size
    → let u = add_bounded current observed diff upper_bound in
      (u.value.0 ≤ diff)
      × ((w : ℕ)
          → u.written ≡ some w
          → (w ≤ upper_bound)
            × (u.value.1 ≡ w)
            × ((v : ℕ) × Loaded v current observed × (w ≡ v + u.value.0)))
      × (u.written ≡ none → (u.value.0 ≡ 0) × (upper_bound ≤ u.value.1))
unfolding add_bounded add64
add_bounded_within current [] diff upper_bound h = (
  ground arith,
  λ w e. (ground arith, ground arith, (current, refl, ground arith)),
  λ e. ground arith,
)
add_bounded_within current (x ∷ observed) diff upper_bound h =
    elim (Bool-cases (ltb current upper_bound)) [
      | inr full ↦ (rw full (omega arith), λ w e. absurd (ground arith), λ e. ground arith)
      | inl room ↦
          let ih = add_bounded_within x observed (min diff (upper_bound - current)) upper_bound h in
          rw room (
            omega (arith, ih.0),
            λ w e. let (a, b, (v, l, q)) = ih.1 w e in (a, b, (v, inr l, q)),
            ih.2,
          )
    ]

-- However often the exchange fails, the peak ends as the larger of the reported value and of a peak that
-- the loop loaded, so it is at least the reported value.
pub update_peak_bounds :
    (peak : ℕ) (observed : List ℕ) (current : ℕ)
    → (current ≤ update_peak peak observed current)
      × ((v : ℕ) × Loaded v peak observed × (update_peak peak observed current ≡ max v current))
unfolding update_peak
update_peak_bounds peak [] current = (ground arith, (peak, refl, ground arith))
update_peak_bounds peak (w ∷ observed) current = elim (Bool-cases (ltb peak current)) [
  | inr high ↦ rw high (ground arith, (peak, inl refl, ground arith))
  | inl low ↦
      let (a, (v, l, e)) = update_peak_bounds w observed current in rw low (a, (v, inr l, e))
]
