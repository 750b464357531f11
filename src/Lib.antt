-- ===== src/Lib.antt =====
-- Out-of-tree LLVM passes: the analyses and transformations of lib/, and the passes SsSCCP, SsInline
-- and SsLoopVec, modelled and verified.
--
-- The program's parts. Every pass works on LLVM's in-memory IR and is registered with both pass
-- managers. RIV, OpcodeCounter and StaticCallCounter are analyses, which leave the IR as it is.
-- MBASub, MBAAdd, MergeBB and DuplicateBB rewrite functions; DuplicateBB takes RIV's result.
-- InjectFuncCall and DynamicCallCounter insert code into the functions of a module. HelloWorld
-- prints. SsSCCP, SsInline and SsLoopVec stand apart, in directories of their own. The option
-- -mba-ratio of MBAAdd has its own type and parser, Ratio.
--
-- Which file models which part:
--   Ir            the IR that the rewriting passes share: types, operands, instructions; Ir/Exec
--                 says what straight-line code does, Ir/Builder what IRBuilder promises
--   Ratio         lib/Ratio.cpp, include/Ratio.h: `parser<Ratio>::parse`
--   Mba/Sub       lib/MBASub.cpp: `runOnBasicBlock`, `run`, and `runOnFunction` of the legacy pass
--   Mba/Add       lib/MBAAdd.cpp: the same
--   Mba/Block     what both passes keep, and their loops over blocks
--   Riv           lib/RIV.cpp, include/RIV.h: `buildRIV` in its three steps; Riv/Report `run`,
--                 and what the legacy pass prints
--   Counters      lib/OpcodeCounter.cpp: `generateOpcodeMap`; lib/StaticCallCounter.cpp:
--                 `runOnModule`; Counters/Report what both print, and the driver
--                 tools/StaticMain.cpp
--   Cfg           a function as its blocks, with the uses of values, for MergeBB
--   MergeBb       lib/MergeBB.cpp, include/MergeBB.h: `canRemoveInst`, `canMergeInstructions`;
--                 MergeBb/Lockstep `LockstepReverseIterator`; MergeBb/Merge `replaceBB`,
--                 `mergeDuplicatedBlock` and the loop of `run`; MergeBb/Steps what a function
--                 does, block by block
--   Duplicate     lib/DuplicateBB.cpp: `findBBsToDuplicate`, `run`; Duplicate/Clone the loop of
--                 `cloneBB`, Duplicate/Whole all of it, in its function
--   Instrument    lib/InjectFuncCall.cpp and lib/DynamicCallCounter.cpp: `runOnModule` of each;
--                 Instrument/DynamicCallCounter/Runtime what an instrumented module does
--   SsSccp        SsSCCP/SsSCCP.cpp: `SCCP_GatherAlloca`, `SCCP_SearchDFS`; SsSccp/Replace
--                 `SCCP_ReplaceAllocaWithConstantDFS` and the first loop of `DoSCCP`;
--                 SsSccp/Fold `mergeBranchTwoBBToOneBB` and the rest of `DoSCCP`; SsSccp/Whole
--                 `DoSCCP` with its guards, and what both passes return
--   SsInline      SsInline/SsInline.cpp: `inlineOnce`, `runOnModule`, `run`
--   SsLoopVec     SsLoopVec/SsLoopVec.cpp: `DoImpl`, `run`; SsLoopVec/Exec says what the
--                 instructions that it makes do, SsLoopVec/Looping follows the rounds of the loop
--   HelloWorld    HelloWorld/HelloWorld.cpp: `visitor`, and what both passes return
--   Containers    MapVector, StringMap and SmallPtrSet as lists
--   Base          names of the library, Boolean tests, lists and binary digits
--   Tests         each theorem on a concrete program
--
-- How state corresponds. An instruction, a block or a global is known by a number, as LLVM knows it
-- by its address; the number of an instruction is also the value that it defines. `Changed`,
-- `SubstCount` and `DeleteList` are fields of a result. What a pass creates gets fresh numbers,
-- from a counter that is passed along. Replacing an instruction hands its uses over, so the new
-- instruction keeps the number of the old one. Unsigned counters wrap at 32 bits.
--
-- Fuel. `Riv.process`, the while loop of `buildRIV`, gets one round for each block of the dominator
-- tree, since each round takes one node off the deque for good. `MergeBb.Lockstep.run_loop` gets
-- one for each instruction of the first block, and one more, since each round takes an instruction
-- from the first cursor. The recursion of SsSCCP, `SsSccp.walk`, gets its fuel from the caller, and
-- `SsSccp.Whole.do_sccp` gives it the depth of the dominator tree, and one more: each call goes one
-- level down. The loop of SsInline,
-- `SsInline.inline_all`, may go on for ever on recursive functions; more fuel than `main` has calls is
-- enough where the called functions have no calls, direct or not. A block of SsSCCP that is copied into
-- itself makes a loop endless, which is an outcome of its own.
--
-- Parameters. Code of LLVM and of the C++ library is not translated: `strtod` and the comparison of
-- doubles, the draws of random numbers, IRBuilder (with the laws `IsBuilder`), the effect of the
-- instructions that are no integer arithmetic (`Machine`), the dominator tree, the order of
-- predecessors and of users, `isSameOperationAs`, the cast to `CmpInst` with its predicate,
-- `APInt::sgt`, `ConstantInt::get`, `DeleteDeadBlock`, SplitBlockAndInsertIfThenElse, call sites, and opcode names.
--
-- Further parameters are the order in which a StringMap gives its items, for DynamicCallCounter, and
-- which users the walk of `call->users()` meets in SsInline, which changes the lists of uses.
--
-- Not modelled: the registration of passes; attributes and the private globals that hold names; debug
-- output; the command line of tools/StaticMain.cpp; the alignment of the vector load of SsLoopVec; and
-- the text that `printf` and streams make of what they get: lines hold the values that are passed, where
-- 32-bit counters are passed under `%-10lu`. The `int` of SsSCCP's AllocaInfo is kept as its 32 bits, and
-- ConstantInt::get, which extends its sign, is a parameter; that an instruction which SsSCCP erases may
-- still have uses, which LLVM does not allow, is not told apart. In DuplicateBB a phi takes the number of
-- the instruction that it replaces, so that ReMapper finds the value itself.
pub mod Base
pub mod Ir
pub mod Ratio
pub mod Containers
pub mod Mba
pub mod Riv
pub mod Counters
pub mod Cfg
pub mod MergeBb
pub mod Duplicate
pub mod Instrument
pub mod SsSccp
pub mod SsInline
pub mod HelloWorld
pub mod SsLoopVec
pub mod Tests
