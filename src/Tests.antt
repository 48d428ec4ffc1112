-- ===== src/Tests.antt =====
-- Runs of the models on concrete inputs, for each part of the program.
mod Codec
pub mod Headers
pub mod Sessions
mod Brokers
mod Servers
mod Codes
mod Printing
mod Library
mod Base58s
mod Json
mod Relays
mod Proofs
