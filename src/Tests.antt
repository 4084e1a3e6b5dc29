-- ===== src/Tests.antt =====
-- Runs of the theorems at concrete inputs: small memories, a keyboard at rest, an empty disk.
mod Devices
mod Drives
mod Memory
mod Heaps
mod Tables
mod Text
mod Image
mod Tree
mod Lines
mod Typed
mod Places
