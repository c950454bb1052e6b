-- ===== src/Tests.antt =====
-- Examples of the theorems, on concrete data.
pub mod FactsExamples
pub mod CorpusExamples
pub mod RankExamples
pub mod SyncExamples
pub mod IndexSyncExamples
pub mod ReadExamples
pub mod AddressExamples
pub mod AuditExamples
pub mod PoolExamples
pub mod SelectorExamples
pub mod WorkersExamples
pub mod AnnExamples
pub mod SearchExamples
pub mod NetworkExamples
pub mod RunnerExamples
pub mod CrmExamples
pub mod GraphPlanExamples
