-- ===== src/Tests.antt =====
-- Concrete runs of the modelled code, and the theorems at concrete inputs.
mod Integers
mod Memory
mod IntMath
mod FreeList
mod Bag
mod Matrix
mod Grid
mod Matmul
mod RowSum
mod Quicksort
mod Pic
mod Step
