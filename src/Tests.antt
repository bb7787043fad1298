-- ===== src/Tests.antt =====
-- Concrete runs of the model, and its theorems at concrete inputs.
mod Codecs
mod Checkpoint
mod Fortigate
mod Helper
mod Cli
mod Desktop
mod Loop
mod Session
