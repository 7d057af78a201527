-- ===== src/Lib.antt =====
-- cuCascade keeps data batches in tiers of memory, GPU, host and disk, moves them between the tiers, and
-- hands them to the tasks that process them. This library models the parts that decide: who may hold a
-- batch, which batch a repository gives out, what each tier's memory resource counts as used, how a table
-- is stored in host memory, and which devices are near a GPU.
--
-- The parts, and how they meet:
-- - Base: lists and Boolean tests over the native numbers, errors as values, 64-bit words (`size_t`) and
--   `int64_t`, both with wrap-around.
-- - Batch: include/data/data_batch.hpp and src/data/data_batch.cpp. A method of `data_batch` is one
--   function, since it runs under the batch's mutex; it tells which condition variable it notifies.
--   Batch/Calls adds the client: the number of live `data_batch_processing_handle`s, and a history of
--   calls. Batch/Handles has the handles as objects, in a program with any number of batches.
-- - Repository: include/data/data_repository.hpp and src/data/data_repository.cpp, over a store of
--   batches. A blocking pop takes a list of the changes that the other threads make up to each of its
--   wake-ups, so that it ends; with the list used up it is `blocked`. The batches change between the rounds
--   of a pop, and not while it goes through a partition under the repository's mutex.
-- - Atomics: include/utils/atomics.hpp. A loop of failed exchanges takes the values that they load.
--   Atomics/Threads interleaves the loads and exchanges of any number of threads.
-- - Disk: include/memory/disk_access_limiter.hpp and src/memory/disk_access_limiter.cpp.
-- - Channel: include/memory/notification_channel.hpp and src/memory/notification_channel.cpp.
--   Channel/Sleeping has the threads that sleep in `wait`, and whom a call wakes.
-- - Host: include/memory/fixed_size_host_memory_resource.hpp and
--   src/memory/fixed_size_host_memory_resource.cpp. A slot is a live `chunked_reserved_area` with its
--   tracker. Host/Charges states what the resource is to count: for each reservation the larger of its
--   size and of what is allocated from it, and the loose allocations that no live reservation covers.
--   Host/Histories has the histories of calls since the constructor, and Host/Ownership the allocations
--   that the clients own in them.
-- - Device: include/memory/reservation_aware_resource_adaptor.hpp and
--   src/memory/reservation_aware_resource_adaptor.cpp, with the policies of
--   src/memory/memory_reservation.cpp; the tracker of the scope `PER_STREAM`. Device/PerThread has that of the
--   scope `PER_THREAD`, for a thread with any number of resources; Device/Peaks has the rest of the getters.
-- - Streams: include/memory/stream_pool.hpp and src/memory/stream_pool.cpp, with a program that borrows.
--   Streams/Sleeping has the threads that wait for a stream, and whom a return wakes.
-- - Space: src/memory/memory_space.cpp, over the three resources and the channel: amounts, thresholds,
--   reservations, shutdown. Space/Reserved has the `reservation` of include/memory/memory_reservation.hpp and
--   src/memory/memory_reservation.cpp: its methods, and its destructor, which posts to the channel.
-- - Manager: include/memory/memory_reservation_manager.hpp and src/memory/memory_reservation_manager.cpp:
--   lookup tables, candidates of the strategies, requests, totals, shutdown.
-- - Converter: src/data/representation_converter.cpp and include/data/representation_converter.hpp, with
--   include/memory/host_table.hpp and src/data/cpu_data_representation.cpp: the registry of converters,
--   the conversions to, between and from blocks of host memory, which the resource of Host allocates, and
--   the copy between two GPUs.
-- - Operators: include/data/data_repository_manager.hpp: the repositories of all the operators' ports,
--   over Repository.
-- - Topology: src/memory/topology_discovery.cpp and include/memory/topology_discovery.hpp, over the
--   strings of Base/Text, with `std::stoi`.
-- - Configurator: include/memory/reservation_manager_configurator.hpp, its source file in src/memory, and
--   include/memory/config.hpp: the spaces that are configured from a topology.
-- - Setup: the constructors of src/memory/memory_space.cpp and src/memory/memory_reservation_manager.cpp,
--   from the configurations of Configurator to the spaces of Space and their manager.
-- The three resources count with the counters of Atomics, with no interference inside one operation.
--
-- Bounds: a `size_t` is a number below 2^64, a theorem that needs sizes below 2^61, 2^62 or 2^63 says so;
-- with them no sum of two sizes wraps and no conversion to `int64_t` changes its value. The
-- loops are structural, on a list, a number of blocks, or the wake-ups; those that copy bytes run on
-- fuel, one round for each byte, which is enough since a round copies at least one.
--
-- Parameters: `rmm::align_up`, RMM's alignment, the floating-point padding of one policy, and the answers
-- of the upstream memory resources; `cudf::pack` and `cudf::unpack`, the converter functions that are
-- registered, the answers of NVML, and the contents of sysfs; the arithmetic of doubles and the total
-- memory of a device for the configurator.
--
-- Not modelled: CUDA, the loading of NVML, the representations of data beyond what a batch and a
-- conversion read of them, the stream pool of RMM, the allocators of memory and their default
-- factories. A new arena never has the address of one that is gone. A batch that another thread changes,
-- under the batch's own mutex, while a pop goes through its partition.
pub mod Base
pub mod Batch
pub mod Atomics
pub mod Repository
pub mod Device
pub mod Disk
pub mod Channel
pub mod Host
pub mod Space
pub mod Manager
pub mod Converter
pub mod Operators
pub mod Topology
pub mod Configurator
pub mod Streams
pub mod Setup
