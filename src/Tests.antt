-- ===== src/Tests.antt =====
-- Small queues and tables on which the code runs, and the theorems at these inputs.
mod Queues
mod Tables
mod Tables64
mod Fingerprints
mod Trees
mod FlowCaches
