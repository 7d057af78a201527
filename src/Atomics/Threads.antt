-- ===== src/Atomics/Threads.antt =====
-- Threads that share one bounded counter: each takes by `try_add` and gives back by `sub`, in any
-- interleaving of their loads and exchanges.
use cu_cascade.Base.{
  ℕ, zero, suc, ◌+◌, ◌-◌, ◌≤◌, ◌<◌, ◌≡◌, refl, sym, true, false, arith, update, ℕ_discrete,
}
use cu_cascade.Base.Words.{word_size, add64, sub64}
use cu_cascade.Atomics.{no_room}

-- Where a thread stands: outside, or in the loop of `try_add` with the value that it loaded.
pub data Pc : Type 0 where
  outside : Pc
  loaded : ℕ → ℕ → Pc

-- `held i` is what thread `i` has added and not yet given back.
pub record Shared : Type 0 where
  pub value : ℕ
  pub held : ℕ → ℕ
  pub pc : ℕ → Pc

-- One step of thread `i`. `compare_exchange_weak` may fail at any time, and loads the counter.
pub data Step (upper_bound i : ℕ) (s t : Shared) : Type 0 where
  load :
      (diff : ℕ)
      → t ≡ record s { pc = update s.pc i (loaded s.value diff) }
      → Step upper_bound i s t
  refuse :
      (current diff : ℕ)
      → s.pc i ≡ loaded current diff
      → no_room current diff upper_bound ≡ true
      → t ≡ record s { pc = update s.pc i outside }
      → Step upper_bound i s t
  lose :
      (current diff : ℕ)
      → s.pc i ≡ loaded current diff
      → no_room current diff upper_bound ≡ false
      → t ≡ record s { pc = update s.pc i (loaded s.value diff) }
      → Step upper_bound i s t
  win :
      (current diff : ℕ)
      → s.pc i ≡ loaded current diff
      → no_room current diff upper_bound ≡ false
      → s.value ≡ current
      → t ≡ record {
        value = add64 current diff;
        held = update s.held i (s.held i + diff);
        pc = update s.pc i outside;
      }
      → Step upper_bound i s t
  give_back :
      (amount : ℕ)
      → amount ≤ s.held i
      → t ≡ record s { value = sub64 s.value amount; held = update s.held i (s.held i - amount) }
      → Step upper_bound i s t

-- Any number of steps of the first `n` threads.
pub data Reach (upper_bound n : ℕ) (s : Shared) : Shared → Type 0 where
  here : Reach upper_bound n s s
  next :
      {t u : Shared} (i : ℕ)
      → Reach upper_bound n s t
      → i < n
      → Step upper_bound i t u
      → Reach upper_bound n s u

abbrev pub total : ℕ → (ℕ → ℕ) → ℕ
total zero f = 0
total (suc n) f = total n f + f n

total-update_above : (n : ℕ) (f : ℕ → ℕ) (i a : ℕ) → n ≤ i → total n (update f i a) ≡ total n f
total-update_above zero f i a h = refl
total-update_above (suc n) f i a h = ground (arith, total-update_above n f i a)

total-update : (n : ℕ) (f : ℕ → ℕ) (i a : ℕ) → i < n → total n (update f i a) + f i ≡ total n f + a
total-update zero f i a h = absurd (omega arith)
total-update (suc n) f i a h = elim (ℕ_discrete i n) [
  | yes last ↦ ground (arith, total-update_above n f i a)
  | no below ↦ ground (arith, total-update n f i a)
]

-- The counter is what the threads hold, and within the bound.
pub record Inv (upper_bound n : ℕ) (s : Shared) : Type 0 where
  pub conserved : s.value ≡ total n s.held
  pub within : s.value ≤ upper_bound

le-total : (n : ℕ) (f : ℕ → ℕ) (i : ℕ) → i < n → f i ≤ total n f
le-total zero f i h = absurd (omega arith)
le-total (suc n) f i h = elim (ℕ_discrete i n) [
  | yes last ↦ rw last (omega arith)
  | no below ↦ omega (arith, le-total n f i (omega arith))
]

Step-Inv :
    {upper_bound n i : ℕ} {s t : Shared}
    → upper_bound < word_size
    → i < n
    → Step upper_bound i s t
    → Inv upper_bound n s
    → Inv upper_bound n t
unfolding add64 sub64
Step-Inv w h (load d e) v = rw e (record { conserved = v.conserved; within = v.within })
Step-Inv w h (refuse c d p g e) v = rw e (record { conserved = v.conserved; within = v.within })
Step-Inv w h (lose c d p g e) v = rw e (record { conserved = v.conserved; within = v.within })
Step-Inv {upper_bound} {n} {i} {s} w h (win c d p g q e) v = rw e (record {
  conserved = ground (arith, total-update n s.held i (s.held i + d), v.conserved, v.within);
  within = ground (arith, v.within);
})
Step-Inv {upper_bound} {n} {i} {s} w h (give_back a g e) v = rw e (record {
  conserved =
      ground
        (arith, total-update n s.held i (s.held i - a), v.conserved, v.within, le-total n s.held i);
  within = ground (arith, v.within, v.conserved, le-total n s.held i);
})

-- From an unused counter, whatever the interleaving of the threads' loads, failed and successful
-- exchanges and returns: the counter is what the threads hold together, and never exceeds the bound.
pub Reach-Inv :
    (upper_bound n : ℕ) {t : Shared}
    → upper_bound < word_size
    → Reach upper_bound n (record { value = 0; held = λ _. 0; pc = λ _. outside }) t
    → (t.value ≡ total n t.held) × (t.value ≤ upper_bound)
Reach-Inv upper_bound n w r = let v = reach r in (v.conserved, v.within)
  where
    none_held : (k : ℕ) → total k (λ _. 0) ≡ 0
    none_held zero = refl
    none_held (suc k) = omega (arith, none_held k)

    reach :
        {t : Shared}
        → Reach upper_bound n (record { value = 0; held = λ _. 0; pc = λ _. outside }) t
        → Inv upper_bound n t
    reach here = record { conserved = sym (none_held n); within = omega arith }
    reach (next i r h st) = Step-Inv w h st (reach r)
