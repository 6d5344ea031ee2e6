-- ===== src/Elastic.antt =====
-- The transformation of lib/ElasticTransform.cpp: what a kernel and its processing elements exchange
-- after it, and its changes of the control flow graph.
pub mod BlockPe
pub mod BlockPeSteps
pub mod BlockPeRuns
mod Tests
pub mod Merge
pub mod Edges
pub mod Split
pub mod SplitSets
pub mod SplitParts
pub mod Tags
pub mod TagsConform
pub mod LoopPe
