-- ===== src/Lib.antt =====
-- QUANTAS simulates distributed algorithms: peers exchange messages over channels that delay, lose,
-- repeat and reorder them, in rounds. A peer's algorithm is a class derived from Peer; the network gives
-- it neighbours according to a topology, and the channels between them carry its packets.
--
-- The parts, and where they are modelled:
--   DataLink, DataLink/*    quantas/StableDataLinkPeer/StableDataLinkPeer.{hpp,cpp}: a sender that resends
--                           and a receiver that acknowledges. `perform_computation` is the peer's round;
--                           DataLink/System makes of two peers and a network that keeps whatever was
--                           ever sent the steps that `Reach` collects. DataLink/Refinement holds
--                           the machine that they are compared with.
--   Chord, Chord/*          quantas/LinearChordPeer/LinearChordPeer.{hpp,cpp}: routing over fingers in
--                           Chord.antt, the set-up of ring and fingers in Chord/Setup.antt.
--   Raft, Raft/*            quantas/RaftPeer/RaftPeer.cpp: the class RaftConsensus. Its data and small
--                           helpers are in Raft.antt, requests and replication in Raft/Replication.antt,
--                           the handlers and the tick in Raft/Handlers.antt.
--   Kademlia, Kademlia/*    quantas/KademliaPeer/KademliaPeer.{hpp,cpp}: binary ids, distances, fingers,
--                           routing and the handling of a lookup in Kademlia.antt, set-up and the
--                           rounds of a peer in Kademlia/Rounds.antt.
--   AltBit, AltBit/*        quantas/AltBitPeer/AltBitPeer.{hpp,cpp}: the alternating bit protocol.
--   Channel, Channel/*      quantas/Common/Packet.hpp, quantas/Common/Abstract/Channel.{hpp,cpp} and the
--                           inner loop of receive in quantas/Common/Abstract/NetworkInterfaceAbstract.hpp.
--   Topology, Topology/*    quantas/Common/Concrete/Runtime/Topology/TopologyPlanner.cpp: buildTopology,
--                           its validation and its errors.
--   Pbft, Pbft/*            quantas/PBFTPeer/PBFTPeer.cpp: PBFTConsensus in Pbft.antt, its phases in
--                           Pbft/Phases.antt, view changes, runPhase and the rounds of a peer in
--                           Pbft/Rounds.antt.
--   Pow, Pow/*              quantas/Common/Pow.hpp: the ledger of blocks, with the rules of
--                           quantas/BitcoinPeer/PoWBitcoin.hpp and quantas/EthereumPeer/PoWEthereum.hpp,
--                           in Pow.antt; the step of a miner of quantas/BitcoinPeer/BitcoinPeer.cpp and
--                           quantas/EthereumPeer/EthereumPeer.cpp, with what they differ in as a
--                           parameter, in Pow/Miner.antt.
--   Network, Network/*      quantas/Common/Abstract/Network.cpp: the builders of the topologies of a
--                           simulation, compared with Topology.
--   Config, Config/*        quantas/Common/Concrete/Runtime/Config/RuntimeConfig.cpp and
--                           quantas/Common/Concrete/Backends/BoostMq/Control/QueueConfig.cpp.
--   Common, Common/*        lists, sets and maps of ids, integers, and predicates on lists.
--
-- Operations have the names of the source's functions in lower case with underscores; a class is a
-- record, and what a peer sends is added to its field `outbox`. Each algorithm is modelled against that
-- outbox: what the channels do between two peers is part of the models of DataLink/System and Channel.
--
-- Loops are structural, but for four. tryStartReplication and onClientRequest of RaftConsensus call
-- one another: two units of fuel are enough in every state in which the peer's next sequence number is
-- unused, since the second call finds a pending request. pushPacket repeats while a copy is
-- duplicated: the room left in the queue, and one more, is enough, since every turn takes a place.
-- runPhase of PBFT runs the next phase by itself: every third such call uses up a pre-prepare or a
-- message of a new view's proof, and one call more than Pbft.Returns.Measure.phases_left counts is
-- enough. The walks over a ledger's blocks visit each block once: what waits on the stack, with the
-- edges of the blocks that are not visited, is enough. In Chord the number of fingers, and in Kademlia
-- that of the bits, is counted with the number of peers as fuel, which is above its logarithm.
--
-- Rounds (RoundManager::currentRound), random numbers, the clock and std::shuffle are arguments. Numbers
-- are unbounded: counters, rounds and ids are taken not to wrap. Averages, which the source computes in
-- floating point for its log, are left out, and so are logging, JSON, threads, and the backends of
-- processes that talk over message queues or sockets. Not modelled either: faults, the
-- channels that a simulation makes, and the interface that a peer sends through.
--
-- Where the source has no result, the model says so or is silent: the step of a Bitcoin peer that reads a
-- block without a hash and without parents is `none`, for it reads the front of an empty vector; a channel
-- whose parameters make uniformInt or poissonInt throw is not modelled; a message in the proof of a new
-- view of PBFT that lacks its proposal, which the source looks up in a constant JSON value, is passed
-- over. The logarithm of Kademlia's set-up is the exact one, which the rounding of doubles can fall short
-- of from 2 ^ 49 + 1 peers on.
pub mod Common
pub mod AltBit
pub mod Channel
pub mod Chord
pub mod Config
pub mod DataLink
pub mod Kademlia
pub mod Network
pub mod Pbft
pub mod Pow
pub mod Raft
pub mod Topology
