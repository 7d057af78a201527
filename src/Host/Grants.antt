-- ===== src/Host/Grants.antt =====
-- How many blocks an allocation without a reservation has.
use cu_cascade.Base.{
  ℕ, ◌/◌, ◌≡◌, Option, none, some, List, [], arith, Bool-cases, inl, inr, Result, ok, err, Error,
  length,
}
use cu_cascade.Atomics.{try_add}
use cu_cascade.Host.{HostResource, Taking, Allocation, allocate_blocks, conclude}
use cu_cascade.Host.Collecting.{Took, all_taken, threw, ran_out, take-Took}

-- Blocks for all of the bytes, or none.
pub data Grant (total block_size : ℕ) : HostResource × Result (Option Allocation) → Type 0 where
  granted :
      (r : HostResource) (a : Allocation)
      → r.block_size ≡ block_size
      → length a.blocks ≡ total / block_size
      → Grant total block_size (r, ok (some a))
  refused : (r : HostResource) → Grant total block_size (r, ok none)
  failed : (r : HostResource) (e : Error) → Grant total block_size (r, err e)

conclude-Grant :
    (total charged post : ℕ) (r : HostResource) (t : HostResource × Taking)
    → Took (total / r.block_size) r [] t
    → Grant total r.block_size (conclude none total charged post t)
conclude-Grant total charged post r _ (all_taken r' bs s k) = granted _ _ s.size (omega (arith, k))
conclude-Grant total charged post r _ (threw r' s) = failed _ _
conclude-Grant total charged post r _ (ran_out r' s z) = failed _ _

pub allocate-Grant :
    (r : HostResource) (total : ℕ) (upstream : List (Option ℕ))
    → Grant total r.block_size (allocate_blocks r none total upstream)
unfolding allocate_blocks
allocate-Grant r total upstream =
    elim (Bool-cases (try_add r.allocated_bytes [] total r.memory_capacity).value.0) [
      | inl e ↦
          rw e (conclude-Grant total total _ _ _ (take-Took (total / r.block_size) _ [] upstream))
      | inr e ↦ rw e (refused _)
    ]
