-- ===== src/Manager/Selecting.antt =====
-- Which space a request gets its reservation from.
use cu_cascade.Base.{ℕ, ◌≡◌, refl, ap, ◌∙◌, Bool, true, false, List, [], ◌∷◌, All}
use cu_cascade.Space.{
  MemorySpace, Wakes, Made, made, null, blocked, reserve, make_reservation_or_null,
  make_reservation, retry,
}
use cu_cascade.Manager.{
  Manager, RequestStrategy, has_strong_ordering, get_candidates, or_else,
  select_memory_space_and_make_reservation, request_loop, request_reservation,
}

module _ (align_up : ℕ → ℕ → ℕ) (waits : List Wakes) where
  -- What the first candidate gives, whether it has room or not.
  abbrev pub from_first : MemorySpace → ℕ → Made
  from_first s size =
      made (record { space = s.id; arena = (reserve align_up s.reservation_allocator size).1 })

  select_first :
      (strong : Bool) (s : MemorySpace) (ss : List MemorySpace) (size : ℕ)
      → select_memory_space_and_make_reservation align_up waits strong (s ∷ ss) size
        ≡ ((make_reservation_or_null align_up s size).0 ∷ ss, from_first s size)
  unfolding select_memory_space_and_make_reservation make_reservation make_reservation_or_null retry
  select_first true s ss size = refl
  select_first false s ss size = refl

  -- A request with a candidate never waits: it returns a reservation from its first candidate, whatever the waits would
  -- bring. That candidate tries to reserve the size; if it refuses, the reservation has no arena, and the other candidates
  -- are not tried.
  pub request_first :
      (m : Manager) (request : RequestStrategy) (size : ℕ)
      (wakes : List (List MemorySpace → List MemorySpace)) (s : MemorySpace) (ss : List MemorySpace)
      → get_candidates m request ≡ s ∷ ss
      → request_reservation align_up waits m request size wakes
        ≡ ((make_reservation_or_null align_up s size).0 ∷ ss, from_first s size)
  unfolding request_reservation
  request_first m request size wakes s ss e =
      let strong = has_strong_ordering request in
      ap
        (λ cs.
          or_else (select_memory_space_and_make_reservation align_up waits strong cs size)
            (request_loop align_up waits strong size wakes))
        e
      ∙ ap (λ o. or_else o (request_loop align_up waits strong size wakes))
          (select_first strong s ss size)

  select_nobody :
      (strong : Bool) (size : ℕ)
      → select_memory_space_and_make_reservation align_up waits strong [] size ≡ ([], null)
  unfolding select_memory_space_and_make_reservation
  select_nobody true size = refl
  select_nobody false size = refl

  loop_nobody :
      (strong : Bool) (size : ℕ) (wakes : List (List MemorySpace → List MemorySpace))
      → All (λ wake. wake [] ≡ []) wakes
      → request_loop align_up waits strong size wakes [] ≡ ([], blocked)
  unfolding request_loop
  loop_nobody strong size [] h =
      ap (λ o. or_else o (λ cs. (cs, blocked))) (select_nobody strong size)
  loop_nobody strong size (wake ∷ wakes) h =
      ap (λ o. or_else o (λ cs. request_loop align_up waits strong size wakes (wake cs)))
        (select_nobody strong size)
      ∙ ap (request_loop align_up waits strong size wakes) h.0
      ∙ loop_nobody strong size wakes h.1

  -- A request without a candidate is never answered, however often it is woken up, since no wake-up can bring a candidate: the
  -- candidates stay those of the tables.
  pub request_nobody :
      (m : Manager) (request : RequestStrategy) (size : ℕ)
      (wakes : List (List MemorySpace → List MemorySpace))
      → All (λ wake. wake [] ≡ []) wakes
      → get_candidates m request ≡ []
      → request_reservation align_up waits m request size wakes ≡ ([], blocked)
  unfolding request_reservation
  request_nobody m request size wakes h e =
      let strong = has_strong_ordering request in
      ap
        (λ cs.
          or_else (select_memory_space_and_make_reservation align_up waits strong cs size)
            (request_loop align_up waits strong size wakes))
        e
      ∙ ap (λ o. or_else o (request_loop align_up waits strong size wakes))
          (select_nobody strong size)
      ∙ loop_nobody strong size wakes h
