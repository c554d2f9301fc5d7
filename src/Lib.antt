-- ===== src/Lib.antt =====
-- cpu-sim: a model of the five-stage RV32I pipeline simulator and its proofs.
--
-- The program simulates a processor cycle by cycle. A Core owns the stages of
-- the pipeline (fetch, decode, forward, execute, memory access, writeback), the
-- hazard unit, a branch predictor, the register file and two memory ports. In
-- each cycle it evaluates every stage against the same latched state and then
-- latches all of them, or, when the data port is not ready, only forwarding,
-- memory access and writeback.
--
-- The files and the code that they model (paths from the repository's root):
--   Base            machine words, lists, results and facts on bit operations
--   Isa             include/cpusim/isa/rv32i/*.h, src/isa/rv32i/decoder.cpp:
--                   Op, Defs, Encoding and Decoder are the code, Assembler is an
--                   independent description of the instruction formats, and
--                   RoundTrip relates the two
--   RegFile         include/cpusim/regfile.h
--   Alu             src/uarch/alu.cpp
--   Memory          Interface: include/cpusim/memory/mem_interface.h,
--                   FlatMem: src/memory/flat_mem.cpp,
--                   TreePlru: src/memory/tree_plru.cpp, Tags and Cache:
--                   src/memory/cache.cpp, its lines and its requests
--   Predictor       src/uarch/branch_predictor.cpp
--   Pipeline        Latch: include/cpusim/uarch/latch.h, Regs:
--                   include/cpusim/uarch/pipeline/pipe_regs.h, Hazard:
--                   src/uarch/hazard.cpp, and one file for each of
--                   src/uarch/pipeline/*.cpp
--   Sim             Stats: include/cpusim/sim/sim_stats.h, Core:
--                   src/sim/core.cpp, Config: include/cpusim/sim/sim_config.h
--                   and the constructor of Core, Elf: src/sim/elf_loader.cpp
--                   and Core::load_elf, Tracer: src/sim/tracer.cpp with
--                   op_name and abi_name
--   Tools           BenchRun: tools/bench_run.cpp with Core::read_regs, CommandLine
--                   its options, Report what it prints, Numbers the functions
--                   of the C library on its arguments
--   Arch            the architectural machine: what each instruction of RV32I
--                   does, and one step of a program, on any memory. It is
--                   written from the manual and models no file
--   Refine          the core against that machine. Latched is what a cycle
--                   reads and leaves, Claims what each pipeline slot holds for
--                   a state of the machine, the files Stalled to Standing a cycle,
--                   Run a run, Counting its count of instructions, Halting and
--                   Total its end, Ports, Configured, Terminates and Executable
--                   the core of a configuration, and Aligned, OnPort, Guides and
--                   Guided that core with its predictor
--
-- How state and operations correspond: a class is a record of its members and a
-- method a function from the record to the record, with its other results
-- beside it. uint32_t is a natural number below 2 ^ 32 with its wrap-around
-- written out, a signed immediate is its bit pattern, and signed comparisons
-- read it through signed32. A method of a memory that trips an assertion or
-- reads past a vector is none; the indices of the register file are five-bit
-- fields. A stage keeps no pointers to its neighbours: what it reads of them is
-- an argument, and what it does to them is a result, which Sim.Core passes on
-- in the order of Core::tick. The memory ports are parameters of Core, a record
-- of operations (IMemory) that FlatMem fills, and that Cache fills over
-- another. Core::run is recursion on the cycles that are left, which is the
-- bound of its own loop; log2_exact and the descent of the replacement tree
-- recurse on their argument, which exceeds the number of halvings or doublings.
--
-- The timers of the memories are int, and kept as bit patterns: a latency above
-- 2 ^ 31 gives a negative one, and such a memory never answers, so the theorems
-- on waiting ask for latencies below that. The constructors' assertions on
-- powers of two are asserted, in Sim.Config; make_core is none when they fail.
-- A shift by 32 bits or more, which a cache with more than 31 bits of offset and
-- set makes, is undefined in C++ and gives 0 here.
--
-- The counters of SimStats that only a cache writes are in its tag store. A
-- policy that a cache holds by pointer is the one class that implements it. The
-- program is loaded through the instruction port, which passes stores on.
--
-- An ELF file is a list of bytes, which std::ifstream reads from a position and
-- with a fail bit that stays set; an exception is an outcome, beside the
-- memories as they are then. The loop over the program headers recurses on the
-- headers that are left.
--
-- A state of the architectural machine is a program counter, a register file
-- and a memory. The state that a core stands for lies before the instruction in
-- MEM: the write in WB has been made, and EX and the stages in front of it hold
-- what comes after, unless EX finds that fetch went the wrong way. The registers
-- are compared when the core halts, and the memory is not: a store behind the
-- instruction that ends the program can still reach it.
--
-- A text is the list of its character codes, and a tracer's stream the text
-- written to it; Core keeps the calls of record, which Sim.Tracer.trace turns
-- into lines. The register indices of a decoded word are below 32, so abi_name
-- needs no assertion.
--
-- The ports answer within a bound (Memory/Prompt): a flat memory within its
-- latency, and a cache within a write-back, a fetch and a hit, whatever it is
-- at. Refine/Rank counts the cycles that are left at most until the oldest
-- instruction in the pipeline is behind MEM, by the stage that it is in, and
-- each cycle makes a step of the machine or lowers that number (Progress), so a
-- run halts when it may take that many cycles for each instruction (Halting).
-- That no cycle meets an undefined address (Linear, Nearby, Defined, Total)
-- needs code behind each executed instruction, as fetch runs ahead, and a calm
-- word behind the last one, since that word gets as far as MEM.
--
-- The predictor knows the word of an address and not its last two bits. An entry
-- leads where the branch at its word goes (Guides) for code that stands at
-- multiples of four only, so a run with a predictor is compared on a port that
-- has no other words (Aligned), which changes nothing for a core that fetches at
-- no other address (OnPort).
--
-- The driver reads the arguments as lists of character codes, with strtoul on
-- 64-bit results. The files of the host and the texts that printf makes of a
-- double or of the clock are arguments of main. Its results are the exit code,
-- the two output streams and the trace.
--
-- Not modelled: an allocation that fails, and an integer that printf would
-- write with more than 20 digits, which there is none of.

pub mod Base
pub mod Arch
pub mod Isa
pub mod RegFile
pub mod Alu
pub mod Memory
pub mod Predictor
pub mod Pipeline
pub mod Sim
pub mod Tools
pub mod Refine
