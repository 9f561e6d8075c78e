-- ===== src/Lib.antt =====
-- tee-dist is a key-value store in which client nodes do the work and memory nodes expose memory. A
-- client hashes a key, finds its slot on a memory node by linear probing, encrypts and authenticates
-- the value, proposes the new slot to the backups, decides by their votes, commits to the primary by
-- compare-and-swap, repairs the backups that refused and refreshes the primary's cache.
--
-- Which file models which part:
--   * Base and its children: byte strings in memory, little-endian words, machine arithmetic with its
--     wrap-around written out.
--   * Common: src/common.c (hash, trim, hexadecimal texts).
--   * Region: include/td_layout.h and src/layout.c. A region is one byte array; slots are decoded from
--     it. `read_bytes`, `write_bytes` and `cas64` are `td_region_read_bytes`, `td_region_write_bytes`
--     and `td_region_cas64`, each an access under the region's lock.
--     `Region.Open` is `td_region_open`, with the system calls as the parameter `Os`; `Region.Evict` is
--     `td_region_evict_if_needed`.
--   * Crypto: src/crypto.c. OpenSSL is the parameter `OpenSsl`, with `OpenSslLaws`.
--   * Cluster: src/cluster.c. `Cluster.Monad` has the errors, the transport (the function pointers of
--     `td_session_t`) as an interface, and the sequencing; `Probe`, `Commit`, `Votes`, `Read` and `Write`
--     have the operations, and `Finish` says how a write ends on any transport. `Local` fills the interface with regions on which no other client acts.
--   * Tcp: the messages of include/td_transport.h and src/transport_tcp.c. `Socket` has the loops around
--     `send` and `recv`, `Client` the functions of a session, `Server` the thread of a connection, which
--     runs the operations of Region, and `Loopback` both on one connection; `Refines` compares the
--     transport with `Cluster.Local`, over which the operations of Cluster are proved.
--   * Rdma: src/transport_rdma.c, with the verbs as the parameter `Verbs`. `Client` has the functions of a
--     session, `Server` the thread of a connection, `Poll` the completion queue.
--   * Cluster.Race: the accesses of several clients that commit to one slot, as steps in any order.
--     `Race.Commits` compares `td_commit_slot_at` with them.
--   * Repl: the commands of a client node, `td_cluster_execute` of src/cluster.c.
--   * Config: src/config.c and the endpoint parser of src/common.c. `Text` has the parsers, `Slots` the
--     counts of a memory node, `Load` the file.
--   * Tests: concrete runs on a cluster of two nodes.
--
-- Conventions. -1 is `none` or `failed`; a size_t or uint64_t is a number with `add64` and `mul64`;
-- an int of the configuration is a number below 2^32. A probe makes as many rounds as the kind has
-- slots, waiting makes 50 attempts, handing out slots makes a round for each slot that is left.
-- Three loops take fuel: an eviction, for which one round for each cache slot is enough if the
-- threshold is positive and its product does not wrap, the loops around `send` and `recv`, for
-- which as many rounds as there are bytes and interruptions are enough, and the poll of a
-- completion queue, for which as many rounds as there are entries up to its completion are enough.
-- The loop of a connection's thread runs over a list of rounds, each with what the thread finds:
-- the stop flag, what `malloc` does and what the clock measures.
--
-- Not modelled: the counts of profiles, error texts and the formats of what is printed, how connections are
-- set up and torn down, the mains and the benchmark. The theorems on `Cluster.Local`, those on a commit
-- included, speak of one client at a time; those of Region speak of a single access, those of
-- `Cluster.Finish` of any transport, and those of `Cluster.Race` of any number of clients on one slot.
pub mod Base
pub mod Region
pub mod Crypto
pub mod Cluster
pub mod Common
pub mod Config
pub mod Tcp
pub mod Rdma
pub mod Repl
pub mod Tests
