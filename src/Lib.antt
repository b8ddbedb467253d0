-- ===== src/Lib.antt =====
-- A model of the object matcher of examples/hybrid-object-matching, in C, and its proofs.
--
-- The program reads pictures (n x n integer matrices) and objects (m x m), and looks for the first
-- object that matches in each picture: the one of lowest id whose score at some placement is
-- below a threshold, at its row-major-first placement. A backend searches one picture; a runtime
-- decides which process searches which picture. All paths below are in
-- examples/hybrid-object-matching unless they begin with examples/.
--
-- Types, Config     include/msearch/types.h, include/msearch/config.h
-- Floating          C's double, a parameter with the IEEE laws that the proofs name
-- Metric            include/msearch/metric.h: score_at is msearch_score_at
-- Problem           src/core/problem.c: allocation, freeing, validation, the sort by id
-- Canonical         the determinism contract of include/msearch/backend.h
-- Backends          src/backends/backend_serial.c, src/backends/backend_openmp.c and
--                   src/backends/backend_cuda.cu (Cuda: the kernel; Cuda.Create: cuda_create;
--                   Cuda.Search: cuda_search)
-- Runtime           src/runtime: Local is msearch_run_local; Claims is the loop of
--                   process_claimed_pictures, over all interleavings of the ranks; Gather is
--                   gather_records and the end of msearch_run_mpi; Broadcast is
--                   msearch_broadcast_problem; Collectives is MPI
-- Reader            src/core/parser.c: lexer_next, Number (expect_int, expect_double), Matrix, Stream
-- Options           src/cli/options.c: round is one round of the loop of msearch_config_parse
-- Writer            src/core/writer.c: format_match, write_results
-- Registry          include/msearch/backend.h and src/backends/registry.c; RunLocal is
--                   msearch_run_local with the backend's create
-- Verify, Main      src/cli/main.c: run_verify, and main in a build without MPI
-- Determinism       the backends and the runtimes together
-- Examples          examples/distributed-sum/main.c, with the block decomposition in Shares, and
--                   examples/ping-pong/main.c, in PingPong
-- Tests             runs of the model and the properties at concrete inputs
--
-- An int is an integer, with the casts and the checks of the source written out; a size or an
-- index is a natural number. An array is the list of its elements, and a pointer that may be NULL
-- an Option. A function that could read or write outside an array returns an Option, whose
-- `none` is undefined behaviour. Counted loops recur on the rounds left, so no fuel is needed.
-- The OpenMP loop is a relation between states in which any iterations may be under way together,
-- so that every schedule of every number of threads is one of its runs.
--
-- MPI is not part of the repository: its collectives are a parameter, with what the MPI standard
-- says of them. A run of msearch_run_mpi is given by the interleaving of its claims; a run in which
-- rank 0 cannot allocate its gather buffers is left out, since it does not reach the end: rank 0
-- skips MPI_Gather, in which the others wait.
--
-- msearch_config_parse runs on one unit of fuel for each argument, which is enough, since a round
-- takes at least one. The count that ping-pong gives to MPI is the payload cast to an int; a call
-- with a negative count does not return. A file is the list of its bytes; strtod is a parameter, as double is.
--
-- The threads of a CUDA kernel interleave in the same way. A volatile read of the running minimum
-- and an atomicMin are each one step, and the kernels of a stream follow one another. The answers
-- of the CUDA runtime are a parameter, as those of malloc are. What fprintf accepts on stdout counts as written, since the program neither flushes
-- nor checks that stream.
--
-- main is a relation between a command line with what the process meets (files, allocator, backends)
-- and how it ends: an exit code with what has been written, or the code of abort_all.
--
-- Not modelled: src/core/log.c, the usage text, the list of backends and the timing report; the
-- calls of MPI in main; the teardown of the contexts; examples/matrix-multiply and
-- examples/hello-mpi; log output and timing.
pub mod Base
pub mod Floating
pub mod Types
pub mod Writer
pub mod Config
pub mod Metric
pub mod Problem
pub mod Canonical
pub mod Backends
pub mod Runtime
pub mod Reader
pub mod Options
pub mod Examples
pub mod Determinism
pub mod Registry
pub mod Verify
pub mod Main
mod Tests
