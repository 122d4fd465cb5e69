-- ===== src/Lib.antt =====
-- The C programs of OptiTrust's case studies: particle-in-cell simulations, which keep the
-- particles of each grid cell in a bag of linked chunks, matrix products by blocks, the row sums
-- of a box filter, a sort, and the matrix index functions that OptiTrust's programs share.
--
-- How the parts interact. A simulation numbers the cells of a grid and keeps one bag of
-- particles for each cell. A bag is a chain of chunks of fixed size; pushing to it and freeing
-- it call the chunk allocator. A time step iterates over the bag of every cell, gives each chunk
-- back when it is read, and pushes the moved particles to the bags of the next step. The index
-- functions place the elements of a matrix, and the cells of a grid, in memory.
--
-- - Memory: the memory that the C code works on. A state is a heap of chunks and the allocator's
--   own data; a command returns a result, exits, faults (an access outside of the allocated
--   chunks, an index outside of a chunk) or runs out of fuel. Memory/Returns has the rules for
--   commands that return; Memory/Allocator says what a bag needs of an allocator: a validity
--   predicate, that alloc gives a chunk that is not in use, and that free takes one that is.
-- - Alloc: chunk_alloc, chunk_free, bag_chunk_alloc and bag_chunk_free of
--   case_studies/pic/src/bag.c. The allocator of the C library is a parameter; Alloc/Naive shows
--   that the functions fill the interface of Memory/Allocator, where that allocator does not
--   fail. Alloc/FreeList has the functions of the same names that keep a free list, for the
--   calling thread, with the array of pointers to chunks that its uses mean, where bag.c
--   declares an array of chunks. Alloc/FreeList/Spare says what they keep, Pop and Push have the
--   two functions, and Valid shows that they fill the interface too, where the allocator of the
--   C library does not fail.
-- - Bag: the bags of case_studies/pic/src/bag.c, with the types of
--   case_studies/pic/include/bag.h, over any allocator. Bag/Chain and Bag/Shape say when a bag
--   is well formed; Bag/Init, Bag/Push, Bag/Append, Bag/Walk and Bag/Iterate have the proofs,
--   operation by operation; Bag/Iterate/Fold has the iterations whose body reads the particles,
--   and Bag/Iterate/Modify that whose body writes them. The C functions return through pointers
--   to bags and iterators; the model's functions take and return them.
-- - Matrix: MINDEX0 to MINDEX4 and MSIZE0 to MSIZE4 of include/optitrust_common.h.
-- - Grid: wrap, cellOfCoord, coordOfCell and indicesOfCorners of
--   case_studies/pic/simulations/pic_demo.c.
-- - Reals and Particle: the operations on `double`, which are a parameter, and the vectors and
--   particles of case_studies/pic/include/particle.h and case_studies/pic/src/particle.c.
-- - Pic: case_studies/pic/simulations/pic_demo.c: the constants, the cell of a position
--   (Pic/Positions), the interpolation at the corners of a cell and the deposit of charge
--   (Pic/Deposit). Pic/Field has the charge density and the field, with computeFieldFromRho of
--   pic_demo_aux.c. Pic/Step has `step`: its loop over cells and particles, the swap of the bag
--   arrays and the update of the field. Pic/Bags says what it is for the bags of all cells to be
--   well formed together; Pic/Step/Arrivals follows a particle, a cell and all cells;
--   Pic/Step/Whole puts a step together, and Pic/Step/Count counts its particles.
-- - Loops: counting loops, and the rule for them (Loops/Ensures).
-- - Matmul: the matrix products of case_studies/matmul. Matmul.antt has arrays, the loops that
--   copy, fill and add to them, and malloc. Matmul/Reference is matmul.cpp; each of
--   Matmul/OutStatic, OutDynamic, OutStack, OutGoal, Rise, RiseAutosimd, RiseNotmp,
--   RiseNotmpAutosimd, CseBits, CseAutosimd, InnerTranspose, InnerTranspose2, Exp and CheckExp
--   is the program of the file that it names. Matmul/Arrays says what an array holds while it is
--   written in a given order; Pack, Tile, Row, PackedRow and Blocks do this for the packed
--   matrix, a block, its rows and all blocks, and Equivalence compares the programs. An access
--   out of bounds has no result. `malloc` is taken to succeed, with memory that holds anything;
--   loops that OpenMP may run in parallel run in order, and their iterations write to different
--   places. A product and a sum are two operations, which a compiler must not fuse.
-- - RowSum: the row sums of case_studies/opencv. RowSum.antt is box_filter_rowsum.cpp and
--   RowSum/Transformed.antt box_filter_rowsum_exp.cpp, with a function for each of its cases.
--   RowSum/Window has the sums of windows and how they slide, Reference and Transformed/Taps,
--   Channels, FourChannels and Channel the proofs, and Equivalence compares the two.
--   Loops/Stride has the rule for loops that count in steps, and Loops/Prefix the arrays that
--   are written from their start.
-- - Quicksort: case_studies/quicksort/quicksort.cpp. Quicksort.antt has swap, Partition,
--   InsertionSort (which selects the least of the rest), SortCore and Sort; Shuffle says that no
--   element is lost or added, Partition and Selection have the two loops, and Sorted the
--   recursion.
-- - IntMath: the integer functions of case_studies/pic/include/math_functions.h, on signed
--   numbers, but for int_pow, whose base and exponent are not negative. A sum, a product or a
--   quotient that does not fit its type has no result; a long is converted to an int by its low
--   32 bits. IntMath/Power has int_pow, IntMath/Rounding is_even,
--   lowest_even_number_greater_or_equal_than and ceiling, and IntMath/Extremes the extremes of
--   an array.
-- - Prelude: the shared names, Boolean tests, lists, two-digit numbers and signed integers.
-- - Tests: concrete memories, bags and grids, and the theorems at them.
--
-- Bounds and fuel. A loop over the chunks of a bag runs on fuel, one unit for a chunk and one
-- for the end of the chain: the theorems ask for more fuel than the bag has chunks, and say that
-- the loop then returns. The iteration over particles runs on two amounts, one for the particles
-- and one for the empty chunks that are skipped. A loop that counts in steps of at least one
-- runs on one unit more than its bound, which is enough for it to end. The loop of int_pow runs
-- on one unit more than the exponent, which is halved each time. SortCore runs on one unit for
-- each level of its recursion, and Sort gives it one more than the size, since a part is smaller
-- than the whole. The step asks for these two amounts for the bag of every cell. The chunk size
-- is any positive number. bag_size counts in an int and its theorem asks for a count below 2 ^
-- 31; the cell numbers and matrix indices are those of C as long as their products do not
-- overflow.
--
-- Exact arithmetic. `double` is any type with the operations of Reals. The theorems that speak
-- of sums of charges, or of the cell that a position lies in, ask for the laws of exact
-- arithmetic (IsExact, IsOrdered) and say nothing about rounding.
--
-- Not modelled: bag_push_concurrent and the atomic operations, the functions that make and
-- release the free lists of bag.c, with bag_init_array, the programs of case_studies that are
-- not named above, rounding, the Poisson solver, which is a parameter, the other functions of
-- pic_demo.c, input and output, the optimised variants of the simulation and the OCaml and C++
-- parts of the repository.
mod Prelude
pub mod Memory
pub mod Alloc
pub mod Bag
pub mod Matrix
pub mod Grid
pub mod Reals
pub mod Particle
pub mod Pic
pub mod Loops
mod Tests
pub mod Matmul
pub mod RowSum
pub mod Quicksort
pub mod IntMath
