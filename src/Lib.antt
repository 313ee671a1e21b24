-- ===== src/Lib.antt =====
-- DRTP, the Disruption Resilient Transport Protocol: the forwarding strategy of its nodes (LLTC),
-- written for the NFD of ndnSIM. All paths below are under ndnSIM/ns-3/src/ndnSIM/NFD/daemon/fw
-- unless they say otherwise.
--
-- A node receives capsules (numbered data) of a prefix from its upstream neighbour and passes them
-- on. It asks for a capsule that does not come in time, alone (RequestS) or with others (RequestM),
-- answers such requests from its content store (RetranS, RetranM), and tells the nodes downstream what
-- it asks for (Report). While a path is broken it passes messages on along a redundant sub-path (RSP).
--
-- The parts, and the files that model them:
--   DataIdQueue   lltc-common.cpp: LltcDataIdQueue, the IDs that a node passed on
--   Messages      lltc-common.hpp and lltc-messages-helper.cpp: the messages
--   Names         the same: the text of the names, which the parse functions read, and (Content) the bytes
--                 of the lists; Retransmissions has those of RetranS and RetranM. RoundTrip, Requests and Wire
--                 read back what was written
--   Fs            lltc-fs.hpp and the lookups of lltc-strategy-forwarding-sublayer-packet-forwarding.cpp
--   State         lltc-strategy.hpp: CapsuleForwardingStates, and the calls that the strategy makes;
--                 State.Frame says what an operation leaves alone
--   Cs            lltc-strategy-service-sublayer-cs.cpp and table/cs.cpp: lookupInCs
--   Forwarding    lltc-strategy-service-sublayer-forwarding.cpp: deliverCapsule and its relatives
--   Retrans       lltc-strategy-service-sublayer-retrans-control.cpp: Events (tables of pending
--                 events), Timers, Multiple, Replies, Arrivals (with onReceiveCapsule) and Report
--   Dispatch      afterReceiveData and afterReceiveNonPitData
--   Run           createOrGetCapsuleForwardingStates, and a node over a sequence of events
--   Interests     afterReceiveInterest, over the capsule states of all prefixes (Table)
--   Subgraph      model/lltc/lltc-resilient-routes-subgraph.cpp (in ndnSIM/ns-3/src/ndnSIM): the
--                 states of the links and sub-paths of a subgraph
--   FibonacciHeap model/lltc/lltc-fibonacci-heap.cpp: the heap. Order, Rank (with Fibonacci) and Content
--                 say what its trees are; Merge, Raise (with Parted), Queue and Increase (with
--                 NewMax) what the operations do
--   Preferred     rsgComputePreferredPathID: a search over the heap. Ratios has the laws of its doubles;
--                 Arrays, Invariant, Round, Searching and Starting follow it, and Choice says what it returns
--   Graph         model/lltc/lltc-graph.cpp: the links of the network, as they are read
--   Generation    genLltcRrSubgraph: the subgraph of given routes. Links and WellFormed say what it
--                 needs and builds, and Searchable that the search of Preferred returns on it
--   Links         lltc-strategy-forwarding-sublayer-path-control.cpp: Echos, Advertisements (LSAs) and
--                 Rounds (of a link test), and Failover (updatePreferredPathWithLSA)
--   Tests         a node on which the theorems are applied
-- A C++ function keeps its name in snake_case. A function that works on `this` and on the capsule
-- states `ds` of a prefix takes a `State`, the pair of these and the rest of the node, and returns the
-- new one. A call of the simulator, of the forwarder or of the link measurement is recorded in
-- `env.calls`. `none` as a result is a fault: the dereference of a null pointer, or of the end of a
-- container. A message is dispatched (Dispatch) to a handler (Retrans, Forwarding), which uses the
-- tables (Retrans.Events, DataIdQueue), the content store (Cs) and the lookups (Fs).
--
-- Numbers are natural numbers; unsigned fields wrap around at 2^32 and 2^64 where the source adds or
-- subtracts. Three loops are not walks over a container: that of computeNextDataId, whose fuel is one
-- more than the IDs that the two sets hold, and those of rsgComputePreferredPathID, whose fuel is the
-- number of nodes and one more. It is shown to be enough. A `double` is a value of any type with the
-- operations that the code uses, and with the laws of Preferred.Ratios.IsDouble. These are asked only of
-- what the search of a subgraph of at most 512 nodes forms: sums of logarithms of ratios, each zero at
-- most and either minus infinity or with a key of 8 * 10^12 at most below that of zero (the logarithm of
-- the least positive double is -745.2, its key 7.5 * 10^12 below), so that keys stay below 2^52 or are the
-- least `long`, which the conversion gives on x86 for what does not fit. There a greater sum has no less a
-- key, and a key that is written back as a double and read again is no less and stays in the range.
-- Times and timeouts of the source are `int` or `ns3::Time` in microseconds and are not
-- negative here, but for the waiting time of waitForNextCapsule, whose floating-point formula is a
-- parameter with a result in ℤ.
-- Sets and maps are lists, in the order of insertion; the iteration order of `unordered_set` and
-- `unordered_map` is one of those that the source may have.
--
-- The handlers take messages as records (Messages); Names relates these to the text and to the bytes, in
-- the order of a little-endian machine. A text holds no sign and no white space in front of a number.
--
-- Not modelled: the contents of capsules beyond lists of numbers; parseCapsuleUri; signatures and
-- the expiry of packets; the replacement policy of the content store, a parameter; console output and log
-- files; the generation of routes, whose result Generation takes, with getRSPsByNodeId as a field, since
-- its definition is not among the files of the repository; the applications; the simulator and the forwarder
-- themselves. The link measurement (Links) has a state of its own here: the handlers of Retrans and
-- Dispatch record their calls of it, and its own handlers those of updatePreferredPathWithLSA, the
-- one part that changes the forwarding state, which Links.Failover applies to the entries of fssMap
-- with their subgraphs.
pub mod Base
pub mod Cs
pub mod DataIdQueue
pub mod Dispatch
pub mod FibonacciHeap
pub mod Forwarding
pub mod Fs
pub mod Generation
pub mod Graph
pub mod Interests
pub mod Links
pub mod Messages
pub mod Names
pub mod Preferred
pub mod Retrans
pub mod Run
pub mod State
pub mod Subgraph
pub mod Tests
