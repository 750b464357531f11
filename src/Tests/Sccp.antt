-- ===== src/Tests/Sccp.antt =====
-- The whole of `DoSCCP` on a function with a constant condition, and on one with nothing to do.
use llvm_study.Base.{ℕ, ◌≡◌, refl, true, false, List, [], ◌∷◌, some}
use llvm_study.Ir.{
  Value, const, local, block, int, other_ty, void, br, alloca, load, store, other, other_terminator,
  Instr,
}
use llvm_study.Containers.{address_eq}
use llvm_study.Cfg.{Block, Func, find_block}
use llvm_study.Cfg.Named.{IsNamed}
use llvm_study.Riv.{DomTrees, leaf, tree}
use llvm_study.Mba.Block.{preserve_all}
use llvm_study.SsSccp.{finished}
use llvm_study.SsSccp.Whole.{do_sccp, run, legacy_run_on_function}
use llvm_study.SsSccp.Whole.Unchanged.{run-preserve_all}
use llvm_study.SsSccp.Whole.Ends.{is_fuelled, do_sccp-is_fuelled}
use package.llvm_study.Tests.Folding.{predicate_of, is_sgt, without, jump, greater}
use package.llvm_study.Tests.Merging.{predecessors}

-- The number of the name "foo".
abbrev foo : ℕ
foo = 1

abbrev spill : Instr
spill = record { id = 8; kind = store; ty = void; operands = const 32 5 ∷ local 7 ∷ [] }

-- The only user of the alloca 7 that is a store.
abbrev users : ℕ → List Instr
users i = spill ∷ []

abbrev word : ℕ → ℕ → Value
word p n = const 32 n

abbrev ret : ℕ → Instr
ret id = record { id = id; kind = other_terminator 0; ty = void; operands = [] }

-- The block 2 branches on whether the value of the alloca is greater than 3.
abbrev branching : Func
branching = record {
  entry = 1;
  blocks =
      record {
        name = 1;
        insts = record { id = 7; kind = alloca; ty = other_ty 0; operands = [] } ∷ spill ∷ [];
        term = jump 9 2;
      }
      ∷ record {
        name = 2;
        insts =
            record { id = 21; kind = load; ty = int 32; operands = local 7 ∷ [] }
            ∷ record greater { operands = local 21 ∷ const 32 3 ∷ [] }
            ∷ [];
        term = record {
          id = 11;
          kind = br;
          ty = void;
          operands = local 10 ∷ block 4 ∷ block 3 ∷ [];
        };
      }
      ∷ record {
        name = 3;
        insts = record { id = 12; kind = other 1; ty = int 32; operands = const 32 7 ∷ [] } ∷ [];
        term = jump 13 5;
      }
      ∷ record { name = 4; insts = []; term = jump 14 5 }
      ∷ record { name = 5; insts = []; term = ret 15 }
      ∷ [];
}

abbrev dominators : DomTrees
dominators = tree 2 (tree 3 leaf (tree 4 leaf (tree 5 leaf leaf))) leaf

-- The comparison and the branch are gone, and the block 3 is copied into the block 2.
abbrev simplified : List Block
simplified =
    record {
      name = 1;
      insts = record { id = 7; kind = alloca; ty = other_ty 0; operands = [] } ∷ spill ∷ [];
      term = jump 9 2;
    }
    ∷ record {
      name = 2;
      insts = record { id = 31; kind = other 1; ty = int 32; operands = const 32 7 ∷ [] } ∷ [];
      term = jump 32 5;
    }
    ∷ record { name = 5; insts = []; term = ret 15 }
    ∷ []

sccp_branching :
    do_sccp foo users word predicate_of is_sgt predecessors without (some dominators) 1 branching 30
    ≡ finished (simplified, true)
unfolding do_sccp
sccp_branching = refl

-- Another function is left as it is.
sccp_other :
    do_sccp foo users word predicate_of is_sgt predecessors without (some dominators) 2 branching 30
    ≡ finished (branching.blocks, false)
unfolding do_sccp
sccp_other = refl

-- A function with no constant to propagate.
abbrev idle : Func
idle = record {
  entry = 1;
  blocks =
      record { name = 1; insts = []; term = jump 9 2 }
      ∷ record { name = 2; insts = []; term = ret 15 }
      ∷ [];
}

idle-IsNamed : IsNamed idle.blocks idle.blocks
unfolding find_block
idle-IsNamed = (refl, (refl, tt))

run-idle :
    run foo users word predicate_of is_sgt predecessors without (tree 2 leaf leaf) 1 idle 30
    ≡ finished (idle.blocks, preserve_all)
unfolding run
run-idle = refl

run-preserve_all_example :
    (idle.blocks ≡ idle.blocks)
    × (legacy_run_on_function foo users word predicate_of is_sgt predecessors without
          (tree 2 leaf leaf)
          1
          idle
          30
        ≡ finished (idle.blocks, false))
run-preserve_all_example =
    run-preserve_all foo users word predicate_of is_sgt predecessors without (tree 2 leaf leaf) 1
      idle 30 idle.blocks idle-IsNamed run-idle

do_sccp-is_fuelled_example :
    is_fuelled (
      do_sccp foo users word predicate_of is_sgt predecessors without
        (some dominators)
        1
        branching
        30)
    ≡ true
do_sccp-is_fuelled_example =
    do_sccp-is_fuelled foo users word predicate_of is_sgt predecessors without (some dominators) 1
      branching 30
