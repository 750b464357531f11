-- ===== src/MergeBb.antt =====
-- lib/MergeBB.cpp and include/MergeBB.h: a block is merged into another block that branches to the
-- same successor and holds the same instructions.
-- `isSameOperationAs` and the order of `predecessors` (the order of LLVM's use lists) are LLVM's.
pub mod Lockstep
pub mod Merge
pub mod Steps
use llvm_study.Base.{
  ℕ, zero, suc, ◌+◌, Bool, true, false, not, ◌&&◌, ◌||◌, List, [], ◌∷◌, map, Option, none, some,
  ◌==◌, if◌then◌else◌, length,
}
use llvm_study.Ir.{Value, local, block, Kind, Instr}
use llvm_study.Containers.{Eq, address_eq, has, insert}
use llvm_study.Cfg.{
  Block, Func, value_eq, find_block, is_phi, is_dbg, is_br_or_switch, unconditional_target,
  incoming_value, branches_to,
}
use llvm_study.Cfg.Uses.{Placed, num_uses, the_user, parent_of}

abbrev pub is_some_of : Option ℕ → ℕ → Bool
is_some_of none b = false
is_some_of (some a) b = a == b

abbrev pub is_value : Option Value → Value → Bool
is_value none v = false
is_value (some w) v = value_eq w v

-- `getTerminator()->getSuccessor(0)`, of a block that ends in an unconditional branch.
unfoldable pub successor_of : List Block → ℕ → Option ℕ
unfolding find_block unconditional_target
successor_of bs b = elim (find_block b bs) [
  | none ↦ none
  | some x ↦ unconditional_target x.term.kind x.term.operands
]

-- `canRemoveInst`, for an instruction of the block `parent` that has one use.
unfoldable pub can_remove_inst : List Block → ℕ → Instr → Bool
unfolding the_user successor_of incoming_value value_eq
can_remove_inst bs parent inst = elim (the_user inst.id bs) [
  | none ↦ false
  | some user ↦
      let used_in_phi =
        is_phi user.inst.kind
        && is_some_of (successor_of bs parent) user.parent
        && is_value (incoming_value user.inst parent) (local inst.id) in
      used_in_phi || user.parent == parent
]

-- The loop over the operands.
abbrev pub same_operands : List Value → List Value → Bool
same_operands [] [] = true
same_operands (x ∷ xs) (y ∷ ys) = value_eq y x && same_operands xs ys
same_operands _ _ = false

module _ (same_operation : Instr → Instr → Bool) (bs : List Block) where
  -- `canMergeInstructions`, for an instruction of `bb1` and one of `bb2`.
  unfoldable pub can_merge_instructions : ℕ → ℕ → Instr → Instr → Bool
  unfolding num_uses can_remove_inst
  can_merge_instructions bb1 bb2 inst1 inst2 =
      let has_use = not (num_uses inst1.id bs == 0) in
      let uses_fit =
        if has_use
        then num_uses inst1.id bs == 1 && num_uses inst2.id bs == 1
        else num_uses inst1.id bs == 0 && num_uses inst2.id bs == 0 in
      let removable =
        if has_use then can_remove_inst bs bb1 inst1 && can_remove_inst bs bb2 inst2 else true in
      same_operation inst1 inst2
      && uses_fit
      && removable
      && same_operands inst1.operands inst2.operands

-- `getNumNonDbgInstrInBB`: the terminator counts.
abbrev pub count_non_dbg : List Instr → ℕ
count_non_dbg [] = 0
count_non_dbg (inst ∷ insts) = (if is_dbg inst.kind then 0 else 1) + count_non_dbg insts

unfoldable pub num_non_dbg : Block → ℕ
num_non_dbg b = count_non_dbg b.insts + (if is_dbg b.term.kind then 0 else 1)
