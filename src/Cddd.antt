-- ===== src/Cddd.antt =====
-- The analysis of lib/CDDDAnalysis.cpp, include/CDDDAnalysis.h: which blocks and loops are decoupled
-- into processing elements of their own, and which values go in and out of them.
pub mod Latency
pub mod SccPaths
pub mod SccPathsFound
pub mod SccPathsEnd
pub mod View
pub mod Maps
pub mod Blocks
pub mod BlocksChosen
pub mod BlocksKept
pub mod Dependencies
pub mod Inputs
pub mod Hoist
pub mod Hoisted
pub mod LoopDependencies
pub mod Loops
pub mod LoopsChosen
pub mod LoopMemory
pub mod LoopsDecoupled
pub mod Analysis
pub mod AnalysisSound
mod Tests
