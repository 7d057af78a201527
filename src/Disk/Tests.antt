-- ===== src/Disk/Tests.antt =====
-- Runs of the limiter, and the theorems at inputs that meet their hypotheses.
use cu_cascade.Base.{◌+◌, ◌≤◌, ◌≡◌, [], ◌∷◌, arith, sum_of, length}
use cu_cascade.Base.Int.{pos}
use cu_cascade.Batch.{MemorySpaceId, disk}
use cu_cascade.Disk.{
  DiskAccessLimiter, get_available_memory, get_total_reserved_bytes, get_active_reservation_count,
  get_peak_reserved_bytes,
}
use cu_cascade.Disk.Accounts.{
  reserves, reserves_upto, releases, run, bytes, new_client, run_accounts,
}

abbrev nvme : MemorySpaceId
nvme = record { tier = disk; device_id = pos 0 }

abbrev some_reserved : DiskAccessLimiter
some_reserved = record {
  space_id = nvme;
  memory_limit = 80;
  capacity = 100;
  total_allocated_bytes = 50;
  peak_total_allocated_bytes = 60;
  total_reservation_count = 2;
  mounting_path = 47 ∷ 109 ∷ 110 ∷ 116 ∷ [];
}

-- 70 of 80 bytes are reserved, 20 more are refused, the second request gets 10, and the first is released.
run_accounts_example :
    let c =
      run
        (new_client nvme 80 100 (47 ∷ 109 ∷ 110 ∷ 116 ∷ []))
        (reserves 70 ∷ reserves 20 ∷ reserves_upto 20 ∷ releases 1 ∷ []) in
    (get_total_reserved_bytes c.limiter ≡ sum_of bytes c.arenas)
    × (get_total_reserved_bytes c.limiter ≤ 80)
    × (get_available_memory c.limiter + get_total_reserved_bytes c.limiter ≡ 100)
    × (get_active_reservation_count c.limiter ≡ length c.arenas)
    × (get_total_reserved_bytes c.limiter ≤ get_peak_reserved_bytes c.limiter)
run_accounts_example =
    run_accounts nvme 80 100 (47 ∷ 109 ∷ 110 ∷ 116 ∷ [])
      (reserves 70 ∷ reserves 20 ∷ reserves_upto 20 ∷ releases 1 ∷ []) (omega arith) (omega arith)
      (omega arith)
