-- ===== src/Tests.antt =====
-- Runs at concrete inputs, and each property at an input where its hypotheses hold.
mod House
mod Gates
mod Times
mod Deliveries
mod Tasks
mod Rules
mod Aims
mod Mirrors
mod Models
mod Talks
mod Reviews
mod Facts
mod Queue
