-- ===== src/Host/Histories/Constructed.antt =====
-- What holds of a host resource that is just constructed.
use cu_cascade.Base.{[], ℕ, ◌^◌, ◌<◌, ◌≡◌, refl, Option, List, max, arith, ok}
use cu_cascade.Host.{HostResource, fixed_size_host_memory_resource}
use cu_cascade.Host.Charges.{Inv}
use cu_cascade.Host.Pools.{expand_initial-SameAccounts, idle-Inv}
use cu_cascade.Host.Ownership.{Covered}

pub constructed-Inv_any :
    (align_up : ℕ → ℕ → ℕ) (alignment limit capacity block_size pool_size initial_pools : ℕ)
    (upstream : List (Option ℕ)) (r : HostResource)
    → max limit capacity < 2 ^ 62
    → fixed_size_host_memory_resource align_up alignment upstream limit capacity block_size
        pool_size initial_pools
      ≡ ok r
    → Inv 0 r
unfolding fixed_size_host_memory_resource
constructed-Inv_any align_up alignment limit capacity block_size pool_size n upstream r small e =
    idle-Inv _ r (expand_initial-SameAccounts n _ upstream r e) refl refl small

pub constructed_blank :
    (align_up : ℕ → ℕ → ℕ) (alignment limit capacity block_size pool_size initial_pools : ℕ)
    (upstream : List (Option ℕ)) (r : HostResource)
    → fixed_size_host_memory_resource align_up alignment upstream limit capacity block_size
        pool_size initial_pools
      ≡ ok r
    → r.active_reservations ≡ []
unfolding fixed_size_host_memory_resource
constructed_blank align_up alignment limit capacity block_size pool_size n upstream r e =
    (expand_initial-SameAccounts n _ upstream r e).slots

pub blank-Covered : (r : HostResource) → r.active_reservations ≡ [] → Covered [] 0 r
blank-Covered r e = record {
  covered = rw e (λ id s f. cc);
  strayed = omega arith;
  fresh = rw e (λ id n. (refl, refl));
  distinct = rw e tt;
}
