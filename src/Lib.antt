-- ===== src/Lib.antt =====
-- mc6801-tools: an assembler and a linker for the Motorola 6801.
--
-- The assembler as01 (as/) reads a line with a scanner, looks its identifiers up in a hash table,
-- evaluates its operands with an expression handler, chooses addressing mode and opcode, and hands
-- the code of the line to a writer of object code. The linker ld01 (ld/) reads the object code of
-- each module back and writes the bytes of the executable. The two programs share the conversion of
-- integers to bytes, and the format of the object code.
--
-- Base: native numbers, Boolean tests, lists, and the bit operations of C as arithmetic.
-- TypeConv: as/typeconv.c and ld/typeconv.c. A buffer is a list of bytes, and a call returns the
--   buffer that it leaves.
-- As.Const, As.Line: as/const.h, as/type.h and as/globvar.h, as far as the other parts use them.
-- As.GenObj, As.GenObj.Lines: as/genobj.c, its buffers and its commands. A routine maps a state
--   to the state that it leaves, or to `none` where the program stops. Whether `write` takes
--   a chunk is a parameter. As.GenObj.Writer is the specification: a writer whose bytes reach the
--   stream at once. As.GenObj.Buffers, Requests and Addresses show that the code implements it.
-- As.Asm: the global variables that the scanner, the expressions and the operations share.
-- As.Table: `lookup` of as/table.c, with its hash; Chains and Lookup are the laws of a map.
-- As.Scan: as/scan.c, over the characters of the line with its terminating 0. A char is signed.
--   Numbers is the value of a constant; Returns is on lines that end with a line feed and a 0.
-- As.Express: as/express.c. Combine is what each operator does, Flags the flag bits of the
--   results, and Relocation what an operand stands for once its segment has an address.
--   Frame, with Frame of As.Scan, is what an expression leaves alone.
-- As.MachineOps: as/mops.c, the addressing modes; Simple has the other routines, and Branch is on the
--   reach of short branches.
-- As.GenBin: as/genbin.c, the raw binary file as a list of bytes with a place; Image is on what it holds.
-- As.Pseudo: as/pops.c. Conditionals has IF and its kin with `scompare` of as/express.c, Blocks the
--   location counters, ORG and BLOCK, Labels what declares symbols, Strings FCC, and Values the rest. A
--   stack is a list with its top at the head; calls of as/genobj.c go to the log `output`.
--   Conditionals.Chain and Nesting, Blocks.Counters and Nesting, Strings.RoundTrip and
--   Values.Counts are on what they do.
-- As.Assemble: as/assemble.c, the dispatch of a line and what follows it. What as/readsrc.c, as/macro.c
--   and as/genlist.c do is an interface, the record Source.
-- Ld.Input, Ld.LinkMod: the reads of ld/io.c and ld/readobj.c, and `linkmod` of ld/writex86.c with
--   `setseg`, `skip`, `segwrite` and `writenulls`. The output is a list of seeks and bytes. Commands
--   and Relocs say what each command of the object code does.
-- Ld.SRecords: ld/srec.c, S-records and Intel hex as characters. Reader takes one record apart, Image all of
--   a file, as bytes at addresses; Header is on the record of a name and IntelHex on the other format.
-- Ld.LinkSyms: ld/linksyms.c, with `entrysym` and (Listed, Redefine) `redsym` of ld/readobj.c, and the module selection of ld/script.c as a list of
--   roots. Modules and symbols are places in lists. Reach and Recursion say what a call of `linkrefs` loads,
--   Termination that it ends, Loading, Roots and Pass do so for a pass over all roots, and Ranks, Rebind,
--   Walk, Frame and Passes for the passes until no redefinition is better.
-- Link: what both sides make of a list of requests: code bytes, reserved bytes, operands and
--   segments. Pending is the agreement of the two programs while bytes wait in the buffers of the
--   assembler, Simulation and Steps keep it, RoundTrip concludes. Lines gives the requests of
--   an assembled line.
--
-- Sizes: `offset_t` of the assembler is a size_t of 64 bits, `bin_off_t` of the linker an int of 32
-- bits, kept as its bit pattern; arithmetic wraps as in C. DATASEGS and REL_OUTPUT are defined, as in
-- ld/Makefile, and LONG_OFFSETS is not. Both programs call typeconv_init(1, 1).
--
-- Fuel: `linkmod_loop` has one round per byte of input and one more, since each round reads a byte;
-- Link.RoundTrip shows that it is enough for what the assembler writes. `expres` has 16 calls for
-- each character that is left: each level of an expression takes one, at most 16 levels stand between two
-- characters, and no theorem is about it. A loop over the symbols of a line has a round for each character, since
-- a symbol takes at least one. `linkrefs` has a call for each module and one more, since each call loads
-- a module, and `linksyms` a pass for each redefinition and one more, since a pass that is not the last uses
-- one up. A call without a defined result in C (division by 0, a shift by 64 or more, a read behind the
-- line, a store behind a buffer, a null pointer) is `none`.
--
-- Not modelled: the header of an object file (`objheader`), the line reader and the macros, listings, the
-- symbol listing of `binheader`, `fatalerror`, the layout of the executable, the hash table of
-- ld/table.c, linker scripts, the archiver, objcopy and objdump. `error` and `warning` are a log of their
-- calls.
pub mod Base
pub mod TypeConv
pub mod As
pub mod Ld
pub mod Link
