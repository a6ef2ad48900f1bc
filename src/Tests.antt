-- ===== src/Tests.antt =====
-- The theorems at concrete inputs, and runs of the definitions.
mod Augment
mod Dump
mod Files
mod Packets
mod Ping
mod Hosts
mod Probes
mod Program
mod Threads
mod Tree
