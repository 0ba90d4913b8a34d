-- ===== src/Examples.antt =====
-- Runs of the definitions on small inputs, and the theorems applied to them.
mod Ranges
mod Registers
mod Arguments
mod Slices
mod Layouts
mod Tables
mod Views
mod Initializers
mod Unions
mod Chars
mod Globals
mod Strings
mod Phis
mod Constants
