-- ===== src/Space/Reserved/Tests.antt =====
-- Reservations of a host space with 80 bytes to reserve, of which 70 are.
use cu_cascade.Base.{ℕ, ◌≡◌, ◌≢◌, refl, none, some, [], ok, err, null_dereference, arith}
use cu_cascade.Base.Words.{sub64}
use cu_cascade.Base.Int.{pos}
use cu_cascade.Batch.{host}
use cu_cascade.Atomics.{try_add}
use cu_cascade.Channel.{notification_channel}
use cu_cascade.Space.{
  MemorySpace, Reservation, made, host_resource, host_arena, make_reservation_or_null,
  make_reservation, wait_in,
}
use cu_cascade.Space.Reserved.{size, grow_by, shrink_to_fit, destroy}
use cu_cascade.Space.Reserved.Lifecycle.{Same, make-destroy}
use cu_cascade.Space.Reserved.Refused.{refused_is_null}
use cu_cascade.Host

abbrev space : MemorySpace
space = record {
  id = record { tier = host; device_id = pos 0 };
  memory_limit = 80;
  capacity = 100;
  start_downgrading_memory_threshold = 40;
  stop_downgrading_memory_threshold = 20;
  notification_channel = notification_channel;
  reservation_allocator = host_resource (record {
    memory_limit = 80;
    memory_capacity = 100;
    block_size = 4;
    pool_size = 2;
    allocated_blocks = [];
    free_blocks = [];
    allocated_bytes = 70;
    peak_allocated_bytes = 75;
    active_reservations = [];
    next_uuid = 3;
  });
}

abbrev granted : Reservation
granted = record { space = space.id; arena = some (host_arena 3) }

make-destroy_example :
    let s1 = (make_reservation_or_null (λ n b. n) space 8).0 in
    (s' : MemorySpace) × (destroy s1 granted ≡ ok s') × Same space s' × ((wait_in [] s').1 ≢ none)
unfolding make_reservation_or_null Host.reserve Host.do_reserve try_add
make-destroy_example = make-destroy (λ n b. n) space 8 granted refl (λ e. cc) (omega arith)

refused_is_null_example :
    let (s1, m) = make_reservation (λ n b. n) [] space 12 in
    (r : Reservation) × (m ≡ made r)
    × (size s1 r ≡ err null_dereference)
    × ((bytes : ℕ) → grow_by (λ n b. n) s1 r bytes ≡ err null_dereference)
    × (shrink_to_fit s1 r ≡ err null_dereference)
    × (destroy s1 r ≡ ok s1)
    × (s1 ≡ record space {
      notification_channel = record space.notification_channel {
        n_active_notifiers = sub64 space.notification_channel.n_active_notifiers 1;
      };
    })
unfolding Host.reserve Host.do_reserve try_add
refused_is_null_example = refused_is_null (λ n b. n) 12 [] space refl
