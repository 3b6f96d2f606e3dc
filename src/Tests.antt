-- ===== src/Tests.antt =====
-- Concrete runs: the theorems applied to small inputs.
mod Reads
mod Loads
mod Stacks
mod Frames
mod Bodies
mod Steps
mod Sections
