-- ===== src/Examples.antt =====
-- Tests of the definitions, and each theorem applied to a concrete input.
mod Core
mod Codec
mod Reservoir
mod Lock
mod Resolver
mod Resolving
mod State
mod Lake
mod Documents
mod Projecting
