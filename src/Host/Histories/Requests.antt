-- ===== src/Host/Histories/Requests.antt =====
-- Requests for blocks: `allocate_multiple_blocks` keeps what a history keeps.
use mathlib.Core.Path.{subst}
use cu_cascade.Base.{
  [], ◌∷◌, ℕ, ◌+◌, ◌^◌, ◌<◌, refl, Option, none, some, List, arith, ◌==◌, Bool-cases, inl, inr,
  Result, ok, err, runtime_error,
}
use cu_cascade.Host.{
  Slot, HostResource, find_slot, ReservationArg, no_reservation, other_arena, host_arena,
  Allocation, slot_of, allocate_blocks, allocate_multiple_blocks,
}
use cu_cascade.Host.Charges.{Inv}
use cu_cascade.Host.Blocks.{IsLive, allocate-Inv}
use cu_cascade.Host.Returns.{pointed-IsLive}
use cu_cascade.Host.Histories.{slot_loosened, request_loosened}
use cu_cascade.Host.Ownership.{Covered}
use cu_cascade.Host.Ownership.Calls.{keep-Covered}
use cu_cascade.Host.Ownership.Requests.{gained, allocate-Covered}

abbrev FoundLive : HostResource → Result (Option Slot) → Type 0
FoundLive r (err e) = Unit
FoundLive r (ok slot) = IsLive r slot

slot_of-FoundLive : (r : HostResource) (res : ReservationArg) → FoundLive r (slot_of r res)
unfolding slot_of
slot_of-FoundLive r no_reservation = tt
slot_of-FoundLive r other_arena = tt
slot_of-FoundLive r (host_arena id) =
    go (find_slot r.active_reservations id) (pointed-IsLive r (some id))
  where
    go :
        (o : Option Slot)
        → IsLive r o
        → FoundLive r (elim o [ none ↦ err runtime_error | some s ↦ ok (some s) ])
    go none live = tt
    go (some s) live = live

nothing_more : (loose : ℕ) (r : HostResource) → Inv loose r → Inv (loose + 0) r
nothing_more loose r v = subst (λ l. Inv l r) {x = loose} (omega arith) v

-- The whole call: an empty request, an arena of another kind, and an allocation.
pub request-Inv :
    (align_up : ℕ → ℕ → ℕ) (loose total : ℕ) (r : HostResource) (res : ReservationArg)
    (upstream : List (Option ℕ))
    → Inv loose r
    → align_up total r.block_size < 2 ^ 62
    → 0 < r.pool_size
    → let o = allocate_multiple_blocks align_up r total res upstream in
      Inv (loose + request_loosened align_up r total res o.1) o.0
unfolding allocate_multiple_blocks
request-Inv align_up loose total r res upstream v w p = elim (Bool-cases (total == 0)) [
  | inl e ↦ rw e (nothing_more loose r v)
  | inr e ↦ rw e (go (slot_of r res) (slot_of-FoundLive r res))
]
  where
    go :
        (found : Result (Option Slot))
        → FoundLive r found
        → let o : HostResource × Result (Option Allocation) = elim found [
          | err e ↦ (r, err e)
          | ok slot ↦ allocate_blocks r slot (align_up total r.block_size) upstream
        ] in
          Inv (loose + slot_loosened found (align_up total r.block_size) o.1) o.0
    go (err e) live = nothing_more loose r v
    go (ok slot) live = allocate-Inv loose (align_up total r.block_size) r slot upstream v live w p

no_more :
    (live : List Allocation) (loose : ℕ) (r : HostResource)
    → Covered live loose r
    → Covered live (loose + 0) r
no_more live loose r v = subst (λ l. Covered live l r) {x = loose} (omega arith) v

empty-Covered :
    (live : List Allocation) (loose : ℕ) (r : HostResource)
    → Covered live loose r
    → Covered (record { blocks = []; reserved_memory = none } ∷ live) (loose + 0) r
empty-Covered live loose r v =
    keep-Covered live _ loose (loose + 0) r r v (record { size = refl; next = refl; slots = refl })
      (λ id. omega arith) (omega (arith, v.strayed))

pub request-Covered :
    (align_up : ℕ → ℕ → ℕ) (live : List Allocation) (loose total : ℕ) (r : HostResource)
    (res : ReservationArg) (upstream : List (Option ℕ))
    → Inv loose r
    → align_up total r.block_size < 2 ^ 62
    → 0 < r.pool_size
    → Covered live loose r
    → let o = allocate_multiple_blocks align_up r total res upstream in
      Covered (gained o.1 live) (loose + request_loosened align_up r total res o.1) o.0
unfolding allocate_multiple_blocks
request-Covered align_up live loose total r res upstream i w p v = elim (Bool-cases (total == 0)) [
  | inl e ↦ rw e (empty-Covered live loose r v)
  | inr e ↦ rw e (go (slot_of r res) (slot_of-FoundLive r res))
]
  where
    go :
        (found : Result (Option Slot))
        → FoundLive r found
        → let o : HostResource × Result (Option Allocation) = elim found [
          | err e ↦ (r, err e)
          | ok slot ↦ allocate_blocks r slot (align_up total r.block_size) upstream
        ] in
          Covered
            (gained o.1 live)
            (loose + slot_loosened found (align_up total r.block_size) o.1)
            o.0
    go (err e) f = no_more live loose r v
    go (ok slot) f =
        allocate-Covered live loose (align_up total r.block_size) r slot upstream i f w p v
