-- ===== src/Mba/Sub.antt =====
-- lib/MBASub.cpp: `a - b` becomes `(a + ~b) + 1`, for integers of every width.
pub mod Laws
pub mod Run
use llvm_study.Base.{
  ℕ, ◌+◌, Bool, true, false, Option, none, some, List, [], ◌∷◌, ◌++◌, ◌||◌, if◌then◌else◌,
}
use llvm_study.Ir.{Instr, operand, Ty, int, other_ty, Value, const, BinOp, add, sub, Kind, binary}
use llvm_study.Ir.Builder.{Builder}
use package.llvm_study.Mba.Block.{
  BlockResult, FunctionResult, PreservedAnalyses, preserve_none, preserve_all, Replacement,
  keep_inst, replace_inst, run_blocks, preserved,
}

-- A `BinaryOperator` with opcode Sub of integer type: its width.
unfoldable pub sub_width : Kind → Ty → Option ℕ
sub_width (binary sub) (int w) = some w
sub_width _ _ = none

module _ (b : Builder) where
  -- (a + ~b) + 1
  unfoldable pub replace_sub : ℕ → Instr → ℕ → Replacement
  replace_sub w inst n =
      let flipped = b.create_not w (operand inst 1) n in
      let sum = b.create add w (operand inst 0) flipped.value flipped.next in
      record {
        placed = flipped.insts ++ sum.insts;
        new = record inst { kind = binary add; operands = sum.value ∷ const w 1 ∷ [] };
        next = sum.next;
      }

  unfoldable pub run_on_basic_block : List Instr → ℕ → BlockResult
  unfolding sub_width replace_sub
  run_on_basic_block [] n = record { insts = []; next = n; changed = false; subst_count = 0 }
  run_on_basic_block (inst ∷ rest) n = elim (sub_width inst.kind inst.ty) [
    | none ↦ keep_inst inst (run_on_basic_block rest n)
    | some w ↦
        let r = replace_sub w inst n in replace_inst r.placed r.new (run_on_basic_block rest r.next)
  ]

  unfoldable pub run_on_function : List (List Instr) → ℕ → FunctionResult
  unfolding run_blocks run_on_basic_block
  run_on_function = run_blocks run_on_basic_block

  unfoldable pub run : List (List Instr) → ℕ → PreservedAnalyses
  unfolding run_on_function preserved
  run blocks n = preserved (run_on_function blocks n).changed
