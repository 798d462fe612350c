-- ===== src/Pipeline.antt =====
-- What the services do together: the proof state service (node-proof-state-service/server.js), the proof
-- generation service (node-proof-gen-service/server.js) and the proofs endpoint
-- (node-api-service/lib/endpoints/proofs.js) over one database.
pub mod Distinct
pub mod Consistent
pub mod Keeping
pub mod Handlers
pub mod Run
pub mod Reads
pub mod Batch
pub mod Row
pub mod Sequence
pub mod Calendar
pub mod Covered
pub mod Whole
