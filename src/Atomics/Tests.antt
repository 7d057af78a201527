-- ===== src/Atomics/Tests.antt =====
-- Runs of the counters, and the theorems at inputs that meet their hypotheses.
use cu_cascade.Base.{ℕ, ◌+◌, ◌≤◌, ◌≡◌, refl, true, none, some, [], ◌∷◌, arith, update, ℕ_discrete}
use cu_cascade.Base.Words.{add64}
use cu_cascade.Atomics.{try_add, add_bounded}
use cu_cascade.Atomics.Interference.{Loaded, add_bounded_within}
use cu_cascade.Atomics.Threads.{
  Shared, outside, loaded, Reach, load, win, here, next, total, Reach-Inv,
}

-- The counter moves from 5 to 9 and on to 2 before the third exchange succeeds.
add_late : try_add 5 (9 ∷ 2 ∷ []) 4 13 ≡ record { written = some 6; value = (true, 6) }
unfolding try_add add64
add_late = refl

-- A failed round cuts `diff` to 1; the freed room is not used.
add_less : add_bounded 9 (0 ∷ []) 5 10 ≡ record { written = some 1; value = (1, 1) }
unfolding add_bounded add64
add_less = refl

add_bounded_within_example :
    let u = add_bounded 9 (0 ∷ []) 5 10 in
    (u.value.0 ≤ 5)
    × ((w : ℕ)
        → u.written ≡ some w
        → (w ≤ 10) × (u.value.1 ≡ w) × ((v : ℕ) × Loaded v 9 (0 ∷ []) × (w ≡ v + u.value.0)))
    × (u.written ≡ none → (u.value.0 ≡ 0) × (10 ≤ u.value.1))
add_bounded_within_example = add_bounded_within 9 (0 ∷ []) 5 10 (omega arith)

abbrev unused : Shared
unused = record { value = 0; held = λ _. 0; pc = λ _. outside }

abbrev one_loaded : Shared
one_loaded = record unused { pc = update unused.pc 0 (loaded 0 4) }

abbrev one_holds : Shared
one_holds = record {
  value = add64 0 4;
  held = update one_loaded.held 0 (one_loaded.held 0 + 4);
  pc = update one_loaded.pc 0 outside;
}

one_Reach : Reach 10 2 unused one_holds
unfolding ℕ_discrete
one_Reach =
    next 0 (next 0 here (omega arith) (load 4 refl)) (omega arith) (win 0 4 refl refl refl refl)

Reach-Inv_example : (one_holds.value ≡ total 2 one_holds.held) × (one_holds.value ≤ 10)
Reach-Inv_example = Reach-Inv 10 2 (omega arith) one_Reach
