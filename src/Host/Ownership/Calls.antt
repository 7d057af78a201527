-- ===== src/Host/Ownership/Calls.antt =====
-- Changes of the slots and of the allocations that keep the slots above what points to them.
use mathlib.Core.Path.{subst}
use cu_cascade.Base.{
  ℕ, suc, ◌+◌, ◌≤◌, ◌≡◌, sym, ◌∙◌, none, some, List, ◌∷◌, arith, false, ◌==◌, Bool-cases, inl, inr,
}
use cu_cascade.Base.Int.{pos_part}
use cu_cascade.Host.{Slot, HostResource, find_slot, put_slot, erase_slot, Allocation}
use cu_cascade.Host.Charges.{find-put}
use cu_cascade.Host.Ownership.{
  bytes_of, strays, Covered, find-put_other, put-none, put-none_back, erase-none, find-erase,
  find-erase_other, put-Distinct, erase-Distinct,
}
use cu_cascade.Host.Ownership.Sums.{strays_mono, strays-erase}

-- The slots after a call, and what no call changes.
pub record Changed (r r' : HostResource) (ss : List Slot) : Type 0 where
  pub size : r'.block_size ≡ r.block_size
  pub next : r'.next_uuid ≡ r.next_uuid
  pub slots : r'.active_reservations ≡ ss

module _ (live live' : List Allocation) (loose loose' : ℕ) (r r' : HostResource)
    (v : Covered live loose r) where
  pub keep-Covered :
      Changed r r' r.active_reservations
      → ((id : ℕ) → bytes_of r.block_size live' id ≤ bytes_of r.block_size live id)
      → strays r.block_size r.active_reservations live' ≤ loose'
      → Covered live' loose' r'
  keep-Covered c below h = record {
    covered = rw (c.slots, c.size) (λ id s f. omega (arith, below id, v.covered id s f));
    strayed = rw (c.slots, c.size) h;
    fresh =
        rw (c.slots, c.size, c.next)
          (λ id n. ((v.fresh id n).0, omega (arith, below id, (v.fresh id n).1)));
    distinct = rw c.slots v.distinct;
  }

  put_covers :
      (s t : Slot)
      → find_slot r.active_reservations t.uuid ≡ some s
      → bytes_of r.block_size live' t.uuid ≤ pos_part t.allocated_bytes
      → ((id : ℕ)
          → (t.uuid == id) ≡ false
          → bytes_of r.block_size live' id ≤ bytes_of r.block_size live id)
      → (id : ℕ) (x : Slot) → find_slot (put_slot r.active_reservations t) id ≡ some x
      → bytes_of r.block_size live' id ≤ pos_part x.allocated_bytes
  put_covers s t f enough below id x e = elim (Bool-cases (t.uuid == id)) [
    | inl k ↦
        let same : t.uuid ≡ id = ground arith in
        let there : find_slot (put_slot r.active_reservations t) id ≡ some t =
          subst (λ j. find_slot (put_slot r.active_reservations t) j ≡ some t) same
            (find-put r.active_reservations s t f) in
        let found : t ≡ x = cc in
        subst (λ (y : Slot). bytes_of r.block_size live' id ≤ pos_part y.allocated_bytes) found
          (subst (λ j. bytes_of r.block_size live' j ≤ pos_part t.allocated_bytes) same enough)
    | inr k ↦
        omega (
          arith,
          below id k,
          v.covered id x (sym (find-put_other r.active_reservations t id k) ∙ e),
        )
  ]

  put_fresh :
      (s t : Slot)
      → find_slot r.active_reservations t.uuid ≡ some s
      → ((id : ℕ)
          → (t.uuid == id) ≡ false
          → bytes_of r.block_size live' id ≤ bytes_of r.block_size live id)
      → (id : ℕ) → r.next_uuid ≤ id
      → (find_slot (put_slot r.active_reservations t) id ≡ none)
        × (bytes_of r.block_size live' id ≡ 0)
  put_fresh s t f below id n = elim (Bool-cases (t.uuid == id)) [
    | inl k ↦
        let same : t.uuid ≡ id = ground arith in
        let found : find_slot r.active_reservations id ≡ some s =
          subst (λ j. find_slot r.active_reservations j ≡ some s) same f in
        let missing = (v.fresh id n).0 in absurd (cc)
    | inr k ↦ (
      put-none r.active_reservations t id (v.fresh id n).0,
      omega (arith, below id k, (v.fresh id n).1),
    )
  ]

  pub put-Covered :
      (s t : Slot)
      → find_slot r.active_reservations t.uuid ≡ some s
      → Changed r r' (put_slot r.active_reservations t)
      → bytes_of r.block_size live' t.uuid ≤ pos_part t.allocated_bytes
      → ((id : ℕ)
          → (t.uuid == id) ≡ false
          → bytes_of r.block_size live' id ≤ bytes_of r.block_size live id)
      → strays r.block_size r.active_reservations live' ≤ loose'
      → Covered live' loose' r'
  put-Covered s t f c enough below h = record {
    covered = rw (c.slots, c.size) (put_covers s t f enough below);
    strayed =
        rw (c.slots, c.size)
          (omega (
            arith,
            h,
            strays_mono r.block_size r.active_reservations (put_slot r.active_reservations t) live'
                (put-none_back r.active_reservations t),
          ));
    fresh = rw (c.slots, c.size, c.next) (put_fresh s t f below);
    distinct = rw c.slots (put-Distinct r.active_reservations t v.distinct);
  }

module _ (live : List Allocation) (loose : ℕ) (r r' : HostResource) (v : Covered live loose r) where
  -- A new arena.
  pub register-Covered :
      (t : Slot)
      → t.uuid ≡ r.next_uuid
      → r'.block_size ≡ r.block_size
      → r'.next_uuid ≡ suc r.next_uuid
      → r'.active_reservations ≡ t ∷ r.active_reservations
      → Covered live loose r'
  register-Covered t u z n a = record {
    covered = rw (a, z) covers;
    strayed =
        rw (a, z)
          (omega (
            arith,
            v.strayed,
            strays_mono r.block_size r.active_reservations (t ∷ r.active_reservations) live
                (λ id e. ground arith),
          ));
    fresh =
        rw (a, z, n)
          (λ id h. (ground (arith, (v.fresh id (omega arith)).0), (v.fresh id (omega arith)).1));
    distinct = rw a ((v.fresh t.uuid (omega arith)).0, v.distinct);
  }
    where
      covers :
          (id : ℕ) (s : Slot)
          → find_slot (t ∷ r.active_reservations) id ≡ some s
          → bytes_of r.block_size live id ≤ pos_part s.allocated_bytes
      covers id s e = elim (Bool-cases (t.uuid == id)) [
        | inl k ↦ omega (arith, (v.fresh id (ground arith)).1)
        | inr k ↦ v.covered id s (ground arith)
      ]

  pub erase-Covered :
      (s : Slot)
      → find_slot r.active_reservations s.uuid ≡ some s
      → Changed r r' (erase_slot r.active_reservations s.uuid)
      → Covered live (loose + pos_part s.allocated_bytes) r'
  erase-Covered s f c = record {
    covered = rw (c.slots, c.size) covers;
    strayed =
        rw (c.slots, c.size)
          (omega (
            arith,
            v.strayed,
            v.covered s.uuid s f,
            strays-erase r.block_size r.active_reservations s.uuid live,
          ));
    fresh =
        rw (c.slots, c.size, c.next)
          (λ id n. (erase-none r.active_reservations s.uuid id (v.fresh id n).0, (v.fresh id n).1));
    distinct = rw c.slots (erase-Distinct r.active_reservations s.uuid v.distinct);
  }
    where
      covers :
          (id : ℕ) (x : Slot)
          → find_slot (erase_slot r.active_reservations s.uuid) id ≡ some x
          → bytes_of r.block_size live id ≤ pos_part x.allocated_bytes
      covers id x e = elim (Bool-cases (s.uuid == id)) [
        | inl k ↦
            let same : s.uuid ≡ id = ground arith in
            let gone : find_slot (erase_slot r.active_reservations s.uuid) id ≡ none =
              subst (λ j. find_slot (erase_slot r.active_reservations s.uuid) j ≡ none) same
                (find-erase r.active_reservations s.uuid v.distinct) in
            absurd (cc)
        | inr k ↦ v.covered id x (sym (find-erase_other r.active_reservations s.uuid id k) ∙ e)
      ]
