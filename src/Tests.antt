-- ===== src/Tests.antt =====
-- Runs of the operations at small inputs, and the theorems at such inputs.
mod Frame
mod Threads
mod Traps
mod Tables
mod Cpu
mod Files
mod Heap
mod Blocks
mod Programs
mod Packing
