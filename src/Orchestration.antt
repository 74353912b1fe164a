-- ===== src/Orchestration.antt =====
-- orchestration/.
pub mod Workers
pub mod Topology
pub mod ResourceGraph
pub mod ExecutionPlan
pub mod Lifecycle
pub mod Supervisor
pub mod Arbiter
pub mod FaultBus
pub mod GroupWorker
pub mod Ownership
pub mod Concurrent
mod PlanTests
mod OwnershipTests
mod WorkerTests
