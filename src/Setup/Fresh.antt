-- ===== src/Setup/Fresh.antt =====
-- What the spaces of a new manager have.
use mathlib.Core.Path.{subst}
use cu_cascade.Base.{
  ℕ, ◌-◌, ◌≢◌, ltb, leb, if◌then◌else◌, ◌≡◌, refl, sym, Option, none, some, List, [], ◌∷◌, arith,
  Bool-cases, inl, inr, Result, ok, err, ◌>>=◌,
}
use cu_cascade.Base.Int.{ℤ}
use cu_cascade.Batch.{gpu, host, disk, MemorySpaceId}
use cu_cascade.Topology.{is_empty_text}
use cu_cascade.Host.{HostResource, fixed_size_host_memory_resource, expand_initial}
use cu_cascade.Host
use cu_cascade.Device
use cu_cascade.Disk
use cu_cascade.Host.Pools.{expand_initial-SameAccounts}
use cu_cascade.Space.{
  MemorySpace, get_available_memory, get_total_reserved_memory, get_active_reservation_count,
}
use cu_cascade.Manager.{Manager, index_space, index_spaces, build_lookup_tables}
use cu_cascade.Configurator.{
  Factory, GpuMemorySpaceConfig, HostMemorySpaceConfig, DiskMemorySpaceConfig,
}
use cu_cascade.Setup.{
  MemorySpaceConfig, no_config, gpu_config, host_config, disk_config, gpu_space_on, host_space_on,
  disk_space, memory_space, make_spaces, memory_reservation_manager,
}

-- Nothing is reserved, and all of the capacity is available.
abbrev pub IsFresh : MemorySpace → Type 0
IsFresh s =
    (get_total_reserved_memory s ≡ 0)
    × (get_active_reservation_count s ≡ 0)
    × (get_available_memory s ≡ s.capacity)

-- The id that a configuration asks for.
abbrev pub id_of : {D F : Type 0} → MemorySpaceConfig D F → Option MemorySpaceId
id_of no_config = none
id_of (gpu_config c) = some (record { tier = gpu; device_id = c.device_id })
id_of (host_config c) = some (record { tier = host; device_id = c.numa_id })
id_of (disk_config c) = some (record { tier = disk; device_id = c.disk_id })

-- One fresh space for each configuration, in order, with its id.
abbrev pub AreMade : {D F : Type 0} → List (MemorySpaceConfig D F) → List MemorySpace → Type 0
AreMade [] [] = Unit
AreMade [] (s ∷ ss) = ⊥
AreMade (c ∷ cs) [] = ⊥
AreMade (c ∷ cs) (s ∷ ss) = (id_of c ≡ some s.id) × IsFresh s × AreMade cs ss

bind_ok :
    {A B : Type 0} (r : Result A) (f : A → Result B) (b : B)
    → (r >>= f) ≡ ok b
    → (a : A) × (r ≡ ok a) × (f a ≡ ok b)
bind_ok (ok a) f b e = (a, refl, e)
bind_ok (err x) f b e = cc

ok_injective : {A : Type 0} (a b : A) → ok a ≡ ok b → a ≡ b
ok_injective a b e = cc

room : (capacity : ℕ) → (if ltb 0 capacity then capacity - 0 else 0) ≡ capacity
room capacity = ground arith

index-memory_spaces :
    (m : Manager) (ss : List MemorySpace) → (index_spaces m ss).memory_spaces ≡ m.memory_spaces
index-memory_spaces m [] = refl
index-memory_spaces m (s ∷ ss) = index-memory_spaces (index_space m s) ss

tables-memory_spaces : (ss : List MemorySpace) → (build_lookup_tables ss).memory_spaces ≡ ss
unfolding build_lookup_tables
tables-memory_spaces ss = index-memory_spaces _ ss

host_idle :
    (mr : HostResource) (capacity : ℕ)
    → mr.active_reservations ≡ []
    → mr.allocated_bytes ≡ 0
    → mr.memory_capacity ≡ capacity
    → (Host.get_total_reserved_bytes mr ≡ 0)
      × (Host.get_active_reservation_count mr ≡ 0)
      × (Host.get_available_memory mr ≡ capacity)
unfolding Host.get_available_memory Host.get_total_reserved_bytes Host.get_active_reservation_count
host_idle mr capacity e z c = (rw e refl, rw e refl, rw (z, c) (room capacity))

disk_room : (capacity : ℕ) → (if leb 0 capacity then capacity - 0 else 0) ≡ capacity
disk_room capacity = ground arith

module _ {D F : Type 0} (scale : ℕ → D → ℕ) (most : D) (align_up : ℕ → ℕ → ℕ) (alignment : ℕ)
    (allocator : Factory F → ℤ → ℕ → Option (List (Option ℕ))) where
  gpu_space-IsFresh :
      (c : GpuMemorySpaceConfig D F) (o : Option (List (Option ℕ))) (s : MemorySpace)
      → gpu_space_on scale most align_up alignment allocator c o ≡ ok s
      → (id_of {F = F} (gpu_config c) ≡ some s.id) × IsFresh s
  unfolding gpu_space_on Device.reservation_aware_resource_adaptor get_available_memory
      get_total_reserved_memory get_active_reservation_count Device.get_available_memory
  gpu_space-IsFresh c none s e = cc
  gpu_space-IsFresh c (some up) s e =
      subst (λ (x : MemorySpace). (id_of {F = F} (gpu_config c) ≡ some x.id) × IsFresh x)
        (ok_injective _ s e) (refl, (refl, refl, room c.memory_capacity))

  host_space-IsFresh :
      (c : HostMemorySpaceConfig D F) (o : Option (List (Option ℕ))) (s : MemorySpace)
      → host_space_on scale most align_up alignment allocator c o ≡ ok s
      → (id_of {F = F} (host_config c) ≡ some s.id) × IsFresh s
  unfolding host_space_on fixed_size_host_memory_resource get_available_memory
      get_total_reserved_memory get_active_reservation_count Host.get_available_memory
      Host.get_total_reserved_bytes Host.get_active_reservation_count
  host_space-IsFresh c none s e = cc
  host_space-IsFresh c (some up) s e =
      let (mr, p, e') =
        bind_ok
          (fixed_size_host_memory_resource align_up alignment up
            (scale c.memory_capacity c.reservation_limit_fraction) c.memory_capacity c.block_size
            c.pool_size c.initial_number_pools)
          _ s e in
      let same = expand_initial-SameAccounts c.initial_number_pools _ up mr p in
      subst (λ (x : MemorySpace). (id_of {F = F} (host_config c) ≡ some x.id) × IsFresh x)
        (ok_injective _ s e')
        (refl, host_idle mr c.memory_capacity same.slots same.bytes same.capacity)

  disk_space-IsFresh :
      (c : DiskMemorySpaceConfig) (s : MemorySpace)
      → disk_space scale most align_up alignment allocator c ≡ ok s
      → (id_of {D = D} {F = F} (disk_config c) ≡ some s.id) × IsFresh s
  unfolding disk_space Disk.disk_access_limiter get_available_memory get_total_reserved_memory
      get_active_reservation_count Disk.get_available_memory Disk.get_total_reserved_bytes
      Disk.get_active_reservation_count
  disk_space-IsFresh c s e = elim (Bool-cases (is_empty_text c.mount_paths)) [
    | inl h ↦ cc (rw h at e)
    | inr h ↦
        subst (λ (x : MemorySpace). (id_of {D = D} {F = F} (disk_config c) ≡ some x.id) × IsFresh x)
          (ok_injective _ s (rw h at e)) (refl, (refl, refl, disk_room c.memory_capacity))
  ]

  space-IsFresh :
      (c : MemorySpaceConfig D F) (s : MemorySpace)
      → memory_space scale most align_up alignment allocator c ≡ ok s
      → (id_of c ≡ some s.id) × IsFresh s
  unfolding memory_space
  space-IsFresh no_config s e = cc
  space-IsFresh (gpu_config c) s e = gpu_space-IsFresh c _ s e
  space-IsFresh (host_config c) s e = host_space-IsFresh c _ s e
  space-IsFresh (disk_config c) s e = disk_space-IsFresh c s e

  spaces-AreMade :
      (cs : List (MemorySpaceConfig D F)) (ss : List MemorySpace)
      → make_spaces scale most align_up alignment allocator cs ≡ ok ss
      → AreMade cs ss
  unfolding make_spaces
  spaces-AreMade [] ss e = subst (AreMade {D = D} {F = F} []) (ok_injective [] ss e) tt
  spaces-AreMade (c ∷ cs) ss e =
      let (s, p, e') = bind_ok (memory_space scale most align_up alignment allocator c) _ ss e in
      let (ss', q, e'') =
        bind_ok (make_spaces scale most align_up alignment allocator cs) (λ ss'. ok (s ∷ ss')) ss
          e' in
      let same : s ∷ ss' ≡ ss = ok_injective (s ∷ ss') ss e'' in
      let (i, f) = space-IsFresh c s p in
      subst (AreMade (c ∷ cs)) same (i, f, spaces-AreMade cs ss' q)

  -- A manager that is constructed has a space for each configuration, in order, with its id, in which nothing is reserved and
  -- all of the capacity is available. Without a configuration the constructor throws.
  pub manager-AreMade :
      (cs : List (MemorySpaceConfig D F)) (m : Manager)
      → memory_reservation_manager scale most align_up alignment allocator cs ≡ ok m
      → AreMade cs m.memory_spaces × (cs ≢ [])
  unfolding memory_reservation_manager build_lookup_tables
  manager-AreMade [] m e = cc
  manager-AreMade (c ∷ cs) m e =
      let (ss, p, e') =
        bind_ok (make_spaces scale most align_up alignment allocator (c ∷ cs))
          (λ ss. ok (build_lookup_tables ss)) m e in
      let same : build_lookup_tables ss ≡ m = ok_injective _ m e' in
      (
        subst (λ (x : Manager). AreMade (c ∷ cs) x.memory_spaces) same
            (subst (AreMade (c ∷ cs)) (sym (tables-memory_spaces ss))
              (spaces-AreMade (c ∷ cs) ss p)),
        λ q. cc,
      )
