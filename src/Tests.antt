-- ===== src/Tests.antt =====
-- Runs of the services on small inputs, and the theorems at concrete inputs.
pub mod Data
mod State
mod Gen
mod Token
mod Mon
mod Hash
mod Env
mod Tx
mod Api
mod Ether
mod Connect
mod Start
mod Whole
mod Links
mod Status
mod Command
