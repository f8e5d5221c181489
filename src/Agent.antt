-- ===== src/Agent.antt =====
-- aquaops/agent: the policy that stands before every tool, and the gate on what the tools found.
pub mod Budget
pub mod Authorize
pub mod Admission
pub mod Grants
pub mod Evidence
pub mod Coverage
pub mod Runs
pub mod Traces
pub mod Requests
pub mod Diagnostics
pub mod Retrieved
pub mod State
pub mod Citations
pub mod Graph
mod Samples
