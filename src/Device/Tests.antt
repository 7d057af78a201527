-- ===== src/Device/Tests.antt =====
-- Runs of the device resource, and the theorems at inputs that meet their hypotheses.
use cu_cascade.Base.{
  ◌≤◌, ℕ, ◌+◌, ◌-◌, ◌*◌, ◌/◌, ◌≡◌, refl, true, arith, some, [], ◌∷◌, ok, ◌==◌, if◌then◌else◌,
}
use cu_cascade.Base.Int.{pos}
use cu_cascade.Device.{
  DeviceReservedArena, DeviceResource, ignore, fail, increase, find_tracker, count_bytes,
  check_reservation_and_handle_overflow, do_allocate, do_deallocate, reserve,
  attach_reservation_to_tracker, reset_stream_reservation, is_stream_tracked, get_available_memory,
}
use cu_cascade.Device.PerThread
use cu_cascade.Device.PerThread.Sharing.{other_resource_uncounted}
use cu_cascade.Device.Charging.{arena_of, tracker_of, increase_counts_twice}
use cu_cascade.Device.Returning.{allocate-deallocate}
use cu_cascade.Device.Reserving.{attach-reset}

abbrev align_up : ℕ → ℕ → ℕ
align_up n block = (n + block - 1) / block * block

-- 1,024 bytes are reserved, for stream 7; 768 of them are in use.
abbrev arena : DeviceReservedArena
arena = arena_of 1024 768 (pos 768)

abbrev one_stream : DeviceResource
one_stream = record {
  memory_limit = 8192;
  capacity = 8192;
  total_reserved_bytes = 1024;
  total_allocated_bytes = 1024;
  peak_total_allocated_bytes = 1024;
  number_of_allocations = 1;
  trackers = tracker_of 7 arena ignore ∷ [];
}

-- 512 bytes too many: the reservation grows by 640, and 512 are charged once more.
increase_counts_twice_example :
    (r' : DeviceResource) × (check_reservation_and_handle_overflow
        (λ n. n + 128)
        one_stream
        (tracker_of 7 arena increase)
        768
      ≡ ok ((r', count_bytes (arena_of 1664 768 (pos 768)) (pos 1536)), 512))
    × (r'.total_allocated_bytes ≡ 1664)
    × (768 + 768 ≤ 1664)
increase_counts_twice_example =
    increase_counts_twice (λ n. n + 128) one_stream 7 1024 768 768 (pos 768) (omega arith)
      (omega arith) (omega arith) (omega arith) (omega arith) (omega arith) (omega arith)

-- An allocation of 768 bytes that straddles the end is charged 512, and gives back 256.
allocate-deallocate_example :
    let r1 = (do_allocate align_up 256 (λ n. n) one_stream 7 700 (some 1)).0 in
    let r2 = do_deallocate align_up 256 r1 7 700 in
    (r1.total_allocated_bytes ≡ 1536)
    × (r2.total_allocated_bytes + 256 ≡ 1536)
    × (r2.total_reserved_bytes ≡ 1024)
    × (find_tracker r2.trackers 7
        ≡ some (
            tracker_of 7
              (record (count_bytes arena (pos 1536)) { allocated_bytes = pos 768 })
              ignore))
allocate-deallocate_example =
    allocate-deallocate align_up 256 (λ n. n) one_stream 7 1024 768 700 1 (pos 768) refl
      (omega arith) (omega arith) (omega arith) (omega arith) (omega arith) (omega arith)

attach-reset_example :
    (r1 : DeviceResource) × (a : DeviceReservedArena) × (reserve one_stream 512 ≡ (r1, some a))
    × (a.size ≡ pos 512)
    × (a.allocated_bytes ≡ pos 0)
    × (let (r2, attached) = attach_reservation_to_tracker r1 8 a fail in
        (attached ≡ true)
        × (is_stream_tracked r2 8 ≡ true)
        × (reset_stream_reservation r2 8
            ≡ record one_stream { peak_total_allocated_bytes = r1.peak_total_allocated_bytes }))
attach-reset_example =
    attach-reset one_stream 512 8 fail (omega arith) (omega arith) (omega arith) (omega arith) refl

-- A thread that has reserved 1,024 bytes of resource 0, and resource 1, which is full.
abbrev full : DeviceResource
full = record {
  memory_limit = 4096;
  capacity = 4096;
  total_reserved_bytes = 0;
  total_allocated_bytes = 4096;
  peak_total_allocated_bytes = 4096;
  number_of_allocations = 0;
  trackers = [];
}

abbrev two_resources : PerThread.Thread
two_resources = record {
  resource = λ i. if i == 0 then one_stream else full;
  reservation_state = some (record {
    owner = 0;
    memory_reservation = arena_of 1024 0 (pos 0);
    reservation_policy = ignore;
  });
}

other_resource_uncounted_example :
    let (d', result) =
      PerThread.do_allocate align_up 256 (λ n. n) two_resources 1 5 1000 (some 9) in
    (result ≡ ok 9)
    × ((d'.resource 1).total_allocated_bytes ≡ 4096)
    × (get_available_memory (d'.resource 1) ≡ get_available_memory full)
    × (d'.resource 0 ≡ one_stream)
    × (PerThread.get_allocated_bytes d' 0 5 ≡ 1024)
other_resource_uncounted_example =
    other_resource_uncounted align_up 256 (λ n. n) two_resources 1 0 5 1024 0 1000 9 (pos 0) refl
      (λ e. absurd (omega arith)) (omega arith) (omega arith) (omega arith) (omega arith)
