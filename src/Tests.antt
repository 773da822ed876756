-- ===== src/Tests.antt =====
-- Runs at concrete inputs, and the theorems at inputs where their hypotheses hold.
mod Values
mod Abi
mod Trees
mod Leaves
mod Epochs
mod Rounds
mod Watched
mod NodeLine
mod Committed
mod Commands
mod CommandLine
mod Keys
mod Full
mod Cards
mod Vector
mod Published
mod Sample
