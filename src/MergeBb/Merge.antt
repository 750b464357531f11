-- ===== src/MergeBb/Merge.antt =====
-- `replaceBB`, `mergeDuplicatedBlock` and the two loops of `run`.

pub mod Retarget
pub mod Redirect
pub mod Twins
pub mod Same
pub mod Chosen
pub mod Rules
pub mod Kept
pub mod Preserved
pub mod Dead
pub mod Unchanged
pub mod Assertion
use llvm_study.Mba.Block.{PreservedAnalyses, preserved}
use llvm_study.Base.{
  ℕ, zero, suc, ◌+◌, Bool, true, false, not, ◌&&◌, ◌||◌, List, [], ◌∷◌, map, Option, none, some,
  ◌==◌, if◌then◌else◌,
}
use llvm_study.Ir.{Value, const, local, block, global, undef, Kind, Instr}
use llvm_study.Containers.{Eq, address_eq, has, insert}
use llvm_study.Cfg.{
  Block, Func, value_eq, find_block, is_phi, is_dbg, is_br_or_switch, unconditional_target,
  incoming_value, mentions, branches_to,
}
use llvm_study.Cfg.Uses.{parent_of}
use llvm_study.MergeBb.Lockstep.{mismatch}
use package.llvm_study.MergeBb.{can_merge_instructions, num_non_dbg}

-- The loop over the operands of a terminator: the new operands.
abbrev pub set_targets : ℕ → ℕ → List Value → List Value
set_targets erase retain [] = []
set_targets erase retain (v ∷ vs) =
    (if value_eq v (block erase) then block retain else v) ∷ set_targets erase retain vs

abbrev pub retarget_block : ℕ → ℕ → Block → Block
retarget_block erase retain x = record x {
  term = record x.term { operands = set_targets erase retain x.term.operands };
}

-- The terminator of the block `p` gets its new operands.
abbrev pub retarget : ℕ → ℕ → ℕ → List Block → List Block
retarget p erase retain [] = []
retarget p erase retain (x ∷ xs) =
    (if x.name == p then retarget_block erase retain x else x) ∷ retarget p erase retain xs

-- `replaceBB`, over the predecessors of the block to erase. Its assertion that an operand was
-- updated is `updates_all`.
unfoldable pub replace_bb : List ℕ → ℕ → ℕ → List Block → List Block
replace_bb [] erase retain bs = bs
replace_bb (p ∷ ps) erase retain bs = replace_bb ps erase retain (retarget p erase retain bs)

abbrev pub is_updated : ℕ → ℕ → List Block → Bool
is_updated p erase [] = false
is_updated p erase (x ∷ xs) = (x.name == p && branches_to x erase) || is_updated p erase xs

unfoldable pub updates_all : List ℕ → ℕ → ℕ → List Block → Bool
updates_all [] erase retain bs = true
updates_all (p ∷ ps) erase retain bs =
    is_updated p erase bs && updates_all ps erase retain (retarget p erase retain bs)

-- The phi at the start of the successor: none, one, or several, which are not merged.
pub data SuccPhi : Type 0 where
  no_phi several_phis : SuccPhi
  one_phi : Instr → SuccPhi

unfoldable pub succ_phi : List Instr → SuccPhi
succ_phi [] = no_phi
succ_phi (i ∷ []) = if is_phi i.kind then one_phi i else no_phi
succ_phi (i ∷ (j ∷ rest)) =
    if is_phi i.kind then (if is_phi j.kind then several_phis else one_phi i) else no_phi

-- `InInst && InInst->getParent() == BB`.
abbrev pub defined_in : List Block → Option Value → ℕ → Bool
defined_in bs (some (local id)) b = elim (parent_of id bs) [ none ↦ false | some a ↦ a == b ]
defined_in bs _ b = false

abbrev pub same_value : Option Value → Option Value → Bool
same_value (some v) (some w) = value_eq v w
same_value _ _ = false

unfoldable pub phi_allows : List Block → SuccPhi → ℕ → ℕ → Bool
unfolding incoming_value value_eq parent_of
phi_allows bs no_phi bb1 bb2 = true
phi_allows bs several_phis bb1 bb2 = false
phi_allows bs (one_phi pn) bb1 bb2 =
    let v1 = incoming_value pn bb1 in
    let v2 = incoming_value pn bb2 in
    same_value v1 v2 || defined_in bs v1 bb1 && defined_in bs v2 bb2

abbrev pub is_unconditional : Block → Bool
is_unconditional x = elim (unconditional_target x.term.kind x.term.operands) [
  | none ↦ false
  | some b ↦ true
]

-- No predecessor ends in anything but a branch or a switch.
abbrev pub preds_branch : List Block → List ℕ → Bool
preds_branch bs [] = true
preds_branch bs (p ∷ ps) =
    elim (find_block p bs) [ none ↦ false | some x ↦ is_br_or_switch x.term.kind ]
    && preds_branch bs ps

-- The function, the blocks to delete, `Changed`, and by how much `NumDedupBBs` grew.
pub record Merging : Type 0 where
  pub blocks : List Block
  pub deleted : List ℕ
  pub changed : Bool
  pub num_dedup : ℕ

abbrev pub names : List Block → List ℕ
names [] = []
names (x ∷ xs) = x.name ∷ names xs

module _ (same_operation : Instr → Instr → Bool) (predecessors : List Block → ℕ → List ℕ) where
  unfoldable pub matches : List Block → Block → Block → Bool
  unfolding mismatch
  matches bs b1 b2 =
      elim (mismatch (can_merge_instructions same_operation bs b1.name b2.name) b1.insts b2.insts) [
        | none ↦ false
        | some found ↦ not found
      ]

  -- The tests of the loop over the predecessors of the successor. The source's test of the
  -- predecessors of `b2` stands in a loop of its own, whose `continue` goes on with that loop: it
  -- rejects nothing, and has no counterpart here.
  unfoldable pub accepts : List Block → ℕ → List ℕ → SuccPhi → Block → Block → Bool
  unfolding num_non_dbg phi_allows matches
  accepts bs entry deleted pn b1 b2 =
      not (b2.name == entry)
      && is_unconditional b2
      && not (has b2.name deleted)
      && not (b2.name == b1.name)
      && num_non_dbg b1 == num_non_dbg b2
      && phi_allows bs pn b1.name b2.name
      && matches bs b1 b2

  -- The first predecessor of the successor that passes.
  unfoldable pub find_duplicate : List Block → ℕ → List ℕ → SuccPhi → Block → List ℕ → Option ℕ
  unfolding accepts find_block
  find_duplicate bs entry deleted pn b1 [] = none
  find_duplicate bs entry deleted pn b1 (p ∷ ps) = elim (find_block p bs) [
    | none ↦ find_duplicate bs entry deleted pn b1 ps
    | some b2 ↦
        if accepts bs entry deleted pn b1 b2
        then some b2.name
        else find_duplicate bs entry deleted pn b1 ps
  ]

  unfoldable pub duplicate_of : ℕ → List Block → List ℕ → Block → Option ℕ
  unfolding find_duplicate unconditional_target succ_phi
  duplicate_of entry bs deleted b1 = elim (unconditional_target b1.term.kind b1.term.operands) [
    | none ↦ none
    | some succ ↦ elim (find_block succ bs) [
      | none ↦ none
      | some s ↦ elim (succ_phi s.insts) [
        | several_phis ↦ none
        | no_phi ↦ find_duplicate bs entry deleted no_phi b1 (predecessors bs succ)
        | one_phi pn ↦ find_duplicate bs entry deleted (one_phi pn) b1 (predecessors bs succ)
      ]
    ]
  ]

  unfoldable pub merge_duplicated_block : ℕ → ℕ → Merging → Merging
  unfolding duplicate_of replace_bb
  merge_duplicated_block entry bb1 m = elim (find_block bb1 m.blocks) [
    | none ↦ m
    | some b1 ↦
        if bb1 == entry
        then m
        else if not (preds_branch m.blocks (predecessors m.blocks bb1))
        then m
        else elim (duplicate_of entry m.blocks m.deleted b1) [
          | none ↦ m
          | some bb2 ↦ record {
            blocks = replace_bb (predecessors m.blocks bb1) bb1 bb2 m.blocks;
            deleted = insert bb1 m.deleted;
            changed = true;
            num_dedup = m.num_dedup + 1;
          }
        ]
  ]

  -- The loop over the blocks of the function.
  unfoldable pub merge_blocks : ℕ → List ℕ → Merging → Merging
  unfolding merge_duplicated_block
  merge_blocks entry [] m = m
  merge_blocks entry (bb ∷ bbs) m = merge_blocks entry bbs (merge_duplicated_block entry bb m)

  unfoldable pub merge_all : Func → Merging
  unfolding merge_blocks
  merge_all f =
      merge_blocks f.entry (names f.blocks)
        (record { blocks = f.blocks; deleted = []; changed = false; num_dedup = 0 })

  -- `DeleteDeadBlock` is LLVM's. The order of a SmallPtrSet is not promised; here it is the order
  -- of insertion.
  module _ (delete_dead_block : ℕ → List Block → List Block) where
    pub delete_blocks : List ℕ → List Block → List Block
    delete_blocks [] bs = bs
    delete_blocks (d ∷ ds) bs = delete_blocks ds (delete_dead_block d bs)

    -- The function left, and what `run` returns.
    unfoldable pub run : Func → List Block × PreservedAnalyses
    unfolding merge_all delete_blocks preserved
    run f = let m = merge_all f in (delete_blocks m.deleted m.blocks, preserved m.changed)

    unfoldable pub legacy_run_on_function : Func → List Block × Bool
    unfolding merge_all delete_blocks
    legacy_run_on_function f = let m = merge_all f in (delete_blocks m.deleted m.blocks, m.changed)
