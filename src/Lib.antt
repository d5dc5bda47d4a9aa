-- ===== src/Lib.antt =====
-- A verification library for comm, a crate of channels (src/spsc, src/mpsc, src/spmc, src/mpmc) and of
-- `Select` objects (src/select) that wait for several channels at once.
--
-- The parts, and where they are modelled:
--   src/sortedvec.rs          SortedVec: the ordered set of ids that `Select` keeps, with its bisection;
--   src/select/imp.rs         Select/Inner: what a `Select` object keeps behind its mutex;
--                             Select/WaitQueue: the `Select` objects to be told by a channel;
--                             Select/Wait: the methods of `Select`, over lists of reports;
--   every channel             Select/Watch: `wait_queue` with the hint `wait_queue_used`;
--                             Ring: a buffer of `cap_mask + 1` places under masked positions;
--   src/spsc/bounded/imp.rs   Spsc/Bounded: the packet and the calls of both ends; in
--                             Spsc/Bounded/Sync sequences of calls and the calls that block, in
--                             Spsc/Bounded/Lifetime the making of a channel and its end;
--   src/spsc/ring_buf/imp.rs  Spsc/RingBuf: the send that overwrites the oldest message, with receives
--                             between its steps, and the receive;
--   src/spsc/unbounded/imp.rs Spsc/Unbounded: the packet and the calls of both ends, over Nodes (the
--                             linked nodes on their heap) and Sleeper (the thread that waits);
--   src/mpsc/unbounded/imp.rs Mpsc/Unbounded: the same with a count of senders, and a send in two steps;
--   src/spmc/unbounded/imp.rs Spmc/Unbounded: the same with counts of messages, of receivers and of
--                             sleeping threads, and a receive that locks the read end;
--   src/spsc/one_space/imp.rs Spsc/OneSpace: both threads in steps of one atomic operation each, under
--                             any schedule, with the invariant in Spsc/OneSpace/Phases;
--   src/mpsc/bounded_fast/imp.rs Mpsc/BoundedFast: the packet and all calls, over Slots (the
--                             nodes with the positions at which they are next written or read);
--   src/spmc/bounded_fast/imp.rs Spmc/BoundedFast: the same for one sender and many receivers;
--   src/mpmc/bounded/imp.rs   Mpmc/Bounded: the calls that do not block, on two positions in one word,
--                             the making of the channel and its end; in Mpmc/Bounded/Sync the calls that
--                             block, which sleep or report a deadlock.
-- Channel is the abstract view: a queue of messages between two ends, with the calls that a channel
-- promises. Spsc/Bounded/Models relates a packet to such a queue, and Spsc/Bounded/Send, Recv,
-- Disconnect, Run and Blocking compare their calls. Channel/Peers is the view of the other channels,
-- whose ends may be many; Simulation says what a sequence of calls, a call that blocks, and the loop of
-- `drop` are for any channel, and what follows if each call does what the view says.
--
-- How the code corresponds. `&self` methods on atomics and mutexes become functions from the state
-- of the packet to its next state. But for Spsc/OneSpace a call runs to its end as one step; the
-- calls of the other end come between two calls, and for a call that blocks between two of its
-- tries, as lists that the theorems quantify over; in Mpmc/Bounded/Sync each peer has a turn for
-- each part of a blocking call between two waits. `none` is a fault: a read of an empty place, an
-- access out of bounds, an access to an address with no node, a panic, a thread that locks a mutex
-- that it holds, or, with no other call under way, a loop that spins for ever. A condvar is the
-- count of its notifications. A `Weak` reference is an address, which a map takes to the object, or
-- to `none` once it has been dropped. `usize` has 64 bits, and its sums and differences wrap as in a
-- release build.
--
-- Bounds and fuel. The bisection has one round more than the vector has elements, and the loop of
-- `notify` one round more than the queue has entries, since each round takes an element off what is
-- left. A packet has a capacity of `2 ^ k` with `k` at most 63, or 62 over Slots (a node takes 8
-- bytes or more), or 31 in Mpmc/Bounded, whose peers are fewer than `2 ^ 63`. The loop that fills
-- the nodes of Slots has one round for each. The loop of `drop` in Simulation/Drain has one round
-- more than there are messages. A vector of ids has fewer than `2 ^ 63` elements, since ids are
-- addresses of objects that begin with a word.
--
-- Not modelled: interleavings finer than a call (but for Spsc/OneSpace, and the receives in
-- Spsc/RingBuf), memory orderings, and reference counts (src/arc.rs). The allocator of the nodes is
-- a parameter: a function from the heap to an address, which the theorems take to be unused and not
-- null; that of a buffer says whether there is memory, and for a buffer of nodes what it holds. Nor are
-- modelled recv_sync, new and drop of src/spsc/ring_buf/imp.rs; and src/spsc/one_space/stack.rs.
pub mod Prelude
pub mod SortedVec
pub mod Select
pub mod Ring
pub mod Channel
pub mod Nodes
pub mod Slots
pub mod Sleeper
pub mod Simulation
pub mod Spsc
pub mod Mpsc
pub mod Spmc
pub mod Mpmc
