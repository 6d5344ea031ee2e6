-- ===== src/Lib.antt =====
-- Elastic SYCL HLS: LLVM passes that find the irregular memory accesses of a kernel and route them
-- through load-store queues, and the queues themselves, SYCL kernels for an FPGA.
--
-- The load-store queues execute loads early, as soon as the addresses of all preceding stores are
-- known. The address generation unit sends load and store requests, the compute unit sends store
-- values and takes load values, each over a pipe; muxes merge several ports into one stream.
--
-- Mux: the muxes of lsq/LoadStoreQueueBRAM.hpp (StoreReqInMux, StoreValInMux, LoadReqInMux), one
--   generic definition; the same loop is inlined into the queue kernel for store values. Mux/Order
--   has which item is emitted, Mux/Lossless that none is lost.
-- Bram: the kernel LSQ_BRAM of lsq/LoadStoreQueueBRAM.hpp. Bram/State has its registers, Bram/Stores
--   and Bram/Loads one function per rule of the loop body, Bram/Cycle the body and the loop.
--   Bram/Program is the specification: the memory operations of the client in program order, the
--   value that each load is to get, and what the clients of the pipes keep to. Bram/Invariant and its
--   children tie the registers to the program; Bram/InOrder, Bram/Progress and Bram/Sizes have the
--   theorems about the kernel.
-- Dram: one iteration of the kernel LSQ_DRAM of lsq/LoadStoreQueueDRAM.hpp, from any registers (the
--   source initialises only some of them). Dram/CommitQueue has what loads find among the last
--   stores, Dram/Safe when a load may be issued.
-- Cdg: the control dependence graph of lib/CDG.cpp, include/CDG.h. Cdg/Graph has its data and, as
--   records of operations and laws, what it takes from LLVM: the directed graph, the post-dominator
--   tree and reachability. Cdg/Nodes and Cdg/Construction follow calculateCDG, Cdg/Sources the
--   queries, Cdg/Ferrante the definition of control dependence, Cdg/Kinds the edge labels.
-- Flow: the control flow graph with the searches of it: isReachableWithinLoop of
--   include/CommonLLVM.h and getAllBlockPathsInLoop of lib/DataHazardAnalysis.cpp. Flow/Search and
--   Flow/Reach have the reachability, Flow/Paths, Flow/AllPaths and Flow/PathCount the paths and the
--   end of their search.
-- Hazard: the decisions of lib/DataHazardAnalysis.cpp. Hazard has isInDefUsePath of
--   include/CommonLLVM.h and the search for loads, Hazard/DefUse and Hazard/DefUseEnds what they
--   find, Hazard/LodSource the source of a loss of decoupling (LoD). Hazard/Decisions follows
--   getLodCtrlDepSources, calculateDecoupling and calculateSpeculation, with Hazard/CtrlSources,
--   Hazard/CtrlSourcesEnds and Hazard/Decided. Hazard/Clusters is the constructor's collection of
--   memory operations, Hazard/ClusterMap its map, Hazard/Collected and Hazard/Clustered the result.
-- Cddd: the analysis of lib/CDDDAnalysis.cpp, include/CDDDAnalysis.h and the latencies of
--   include/TableOperationLatency.h. Cddd/Latency has the table and getPathII, Cddd/SccPaths the paths
--   through a recurrence, Cddd/Blocks, Cddd/Dependencies, Cddd/Hoist, Cddd/Loops and
--   Cddd/LoopDependencies one step of the analysis each, Cddd/Analysis their order. What they collect is
--   in Cddd/SccPathsFound, Cddd/SccPathsEnd, Cddd/BlocksChosen, Cddd/BlocksKept, Cddd/Inputs,
--   Cddd/Hoisted, Cddd/LoopsChosen, Cddd/LoopMemory, Cddd/LoopsDecoupled and Cddd/AnalysisSound. The
--   search for paths has fuel for each depth and edge.
-- Elastic: lib/ElasticTransform.cpp. Elastic/BlockPe has the state machine that doPredBbRead builds
--   around a decoupled block and the pipe operations of the kernel that uses it,
--   Elastic/BlockPeSteps and Elastic/BlockPeRuns the runs of both; Elastic/LoopPe the same for a
--   decoupled loop. Elastic/Tags counts the tags of requests and values, and Elastic/TagsConform
--   ties them to the program of Bram/Program. Elastic/Edges is createBlockOnEdge, Elastic/Merge
--   mergePoisonBlocks, Elastic/Split splitCode and deleteCode, with
--   Elastic/SplitSets and Elastic/SplitParts.
-- Helpers: the other helpers of include/CommonLLVM.h: Helpers/Positions, Helpers/PipeCalls,
--   Helpers/TypeNames, Helpers/Pointers and Helpers/Allocas.
-- Dedup: lib/PipeDeduplicationPass.cpp, with the bodies of the kernels as lists of calls.
--   Dedup/Duplicates and Dedup/Shared have the names that kernels share, Dedup/Deleted the writes
--   that are deleted, Dedup/Source and Dedup/Forward the relay of reads.
-- Gep: hoistGepPass of lib/HoistConstantGepTransform.cpp, with the theorem in Gep/Hoisted.
-- Poison: where calculatePoisonBlocks of lib/DataHazardAnalysis.cpp poisons the requests that are
--   speculated. Poison/Groups has the entries of requestsForPath, Poison/Once what happens along one
--   path, Poison/Paths the paths that Flow finds with the reachability of Flow, Poison/Blocks the
--   loops over the speculation blocks and the map poisonLocations, Poison/Edges and Poison/Covered
--   which edges are in it.
-- QueueSize: getStoreQueueSize of lib/DataHazardAnalysis.cpp; QueueSize/Bounds has what the size is
--   enough for, with QueueSize/Counts and QueueSize/Delays. `int` is a natural number there, for runs
--   in which no operation overflows. Its rounding loop runs on fuel, the size, which the doubling
--   reaches.
-- Math: the integer functions of include_sycl/constexpr_math.hpp, with Math/Logs, Math/Powers and
--   Math/Rounding. The loop of Log2 runs on fuel: the width of the type, which bounds the halvings.
-- Prelude: shared names, Boolean tests, lists, membership and addresses.
--
-- Modelling. A parallel set of register arrays is a list of records, index 0 first. Each non-blocking
-- read of a pipe is an input of the iteration, each write an effect; a variable that the source
-- leaves uninitialised is an input too. Tags are natural numbers; where the kernels count, the count
-- wraps at 2^32. The on-chip memory is a map from all addresses, so staying inside the array is the
-- part of the client. Runs are over a list of inputs, so no fuel is needed. A failed assertion or a
-- null pointer in the compiler's code is the result `none`.
--
-- The searches over the function's blocks and instructions give `none` at the end of their fuel, which
-- counts the blocks or the def-use edges, each taken once; the paths of a loop are counted by
-- path_steps. What LLVM answers (the blocks of loops, operands, terminators, isIdenticalTo,
-- ScalarEvolution) is a field of a record.
--
-- Not modelled: hoistSpeculativeRequests, which removes from a set while it iterates over it, so
-- that the language gives it no meaning; the load and store ports and load muxes around LSQ_DRAM
-- and its loop; the rewrite rules of lib/ElasticTransform.cpp but those of PEs and tags;
-- lib/ElasticAnalysisPrinter.cpp and include/AnalysisReportSchema.h, which print and read the
-- analyses; the order of loops of one depth, which llvm::sort leaves open; the timing of the hardware below one iteration of a loop,
-- and the LLVM API.
mod Prelude
pub mod Mux
pub mod Bram
pub mod Math
pub mod Cdg
pub mod Poison
pub mod QueueSize
pub mod Dram
pub mod Elastic
pub mod Flow
pub mod Hazard
pub mod Helpers
pub mod Cddd
pub mod Dedup
pub mod Gep
