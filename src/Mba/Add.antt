-- ===== src/Mba/Add.antt =====
-- lib/MBAAdd.cpp: `a + b` becomes `(((a ^ b) + 2 * (a & b)) * 39 + 23) * 151 + 111`, for 8-bit
-- integers, where a draw from the random number generator lets it.
pub mod Laws
pub mod Run
use llvm_study.Base.{ℕ, ◌+◌, Bool, true, false, List, [], ◌∷◌, ◌++◌, ◌&&◌, ◌==◌, if◌then◌else◌}
use llvm_study.Ir.{
  Instr, operand, Ty, int, other_ty, Value, const, BinOp, add, mul, and, xor, Kind, binary,
}
use llvm_study.Ir.Builder.{Builder}
use llvm_study.Ratio.{Float, Ratio}
use package.llvm_study.Mba.Block.{
  BlockResult, FunctionResult, PreservedAnalyses, Replacement, keep_inst, replace_inst, run_blocks,
  preserved,
}

-- A `BinaryOperator` with opcode Add, of an integer type that is 8 bits wide.
unfoldable pub is_add8 : Kind → Ty → Bool
is_add8 (binary add) (int w) = w == 8
is_add8 _ _ = false

-- C++ leaves the order of the two inner calls open; here `a ^ b` is built first.
unfoldable pub replace_add : Builder → Instr → ℕ → Replacement
replace_add b inst n =
    let x = operand inst 0 in
    let y = operand inst 1 in
    let e0 = b.create xor 8 x y n in
    let conj = b.create and 8 x y e0.next in
    let e1 = b.create mul 8 (const 8 2) conj.value conj.next in
    let e2 = b.create add 8 e0.value e1.value e1.next in
    let e3 = b.create mul 8 (const 8 39) e2.value e2.next in
    let e4 = b.create add 8 (const 8 23) e3.value e3.next in
    let e5 = b.create mul 8 (const 8 151) e4.value e4.next in
    record {
      placed = e0.insts ++ conj.insts ++ e1.insts ++ e2.insts ++ e3.insts ++ e4.insts ++ e5.insts;
      new = record inst { kind = binary add; operands = const 8 111 ∷ e5.value ∷ [] };
      next = e5.next;
    }

-- `draw i` is the i-th call of `Dist(RNG)` after the seeding, which every block repeats.
module _ (f : Float) (ratio : Ratio f.Double) (draw : ℕ → f.Double) (b : Builder) where
  -- The loop, before draw `i`.
  unfoldable pub run_from : ℕ → List Instr → ℕ → BlockResult
  unfolding is_add8 replace_add
  run_from i [] n = record { insts = []; next = n; changed = false; subst_count = 0 }
  run_from i (inst ∷ rest) n = elim (is_add8 inst.kind inst.ty) [
    | false ↦ keep_inst inst (run_from i rest n)
    | true ↦ elim (f.lt ratio.value (draw i)) [
      | true ↦ keep_inst inst (run_from (i + 1) rest n)
      | false ↦
          let r = replace_add b inst n in replace_inst r.placed r.new (run_from (i + 1) rest r.next)
    ]
  ]

  unfoldable pub run_on_basic_block : List Instr → ℕ → BlockResult
  unfolding run_from
  run_on_basic_block insts n = run_from 0 insts n

  unfoldable pub run_on_function : List (List Instr) → ℕ → FunctionResult
  unfolding run_blocks run_on_basic_block
  run_on_function = run_blocks run_on_basic_block

  unfoldable pub run : List (List Instr) → ℕ → PreservedAnalyses
  unfolding run_on_function preserved
  run blocks n = preserved (run_on_function blocks n).changed
