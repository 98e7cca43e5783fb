-- ===== src/Examples.antt =====
-- Instances of the theorems at concrete inputs, and tests of the definitions.
pub mod Codecs
pub mod Samples
pub mod Numbers
mod Queries
mod Reading
mod Sending
mod Witnesses
mod Encodings
mod Api
mod Transport
mod Rounds
mod Starts
mod Serving
