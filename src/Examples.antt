-- ===== src/Examples.antt =====
-- The theorems at concrete inputs, and runs of the modelled code.
mod Scalars
mod Types
mod Lexing
mod Flow
mod Linking
mod Keys
mod Parsing
mod Graphs
mod Merging
mod Hosts
mod Typing
mod Compiling
