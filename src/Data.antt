-- ===== src/Data.antt =====
-- aquaops/data: aggregates and anomaly screening of the public history, and the boundary that
-- agent/tools.py sets around them.
pub mod Numbers
pub mod Window
pub mod Anomaly
pub mod Boundary
pub mod Binary
mod Samples
