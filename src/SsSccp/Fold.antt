-- ===== src/SsSccp/Fold.antt =====
-- The second half of `DoSCCP` of SsSCCP/SsSCCP.cpp: a branch on a comparison of two constants becomes
-- unconditional, and the block that it goes to is copied into the block that it ends.
-- Blocks are those of Cfg, whose terminators stand apart; only a terminator is a `BranchInst`.
pub mod Taken
pub mod Copies
pub mod Unchanged
use llvm_study.Base.{
  ℕ, ◌+◌, Bool, true, false, not, ◌&&◌, ◌||◌, List, [], ◌∷◌, ◌++◌, Option, none, some, ◌==◌,
  if◌then◌else◌,
}
use llvm_study.Ir.{Value, const, local, block, global, undef, Kind, br, void, Instr}
use llvm_study.Containers.{Eq, address_eq, modify}
use llvm_study.Cfg.{Block, find_block}
use llvm_study.Cfg.Uses.{num_uses}
use llvm_study.Duplicate.Clone.{clone}
use llvm_study.MergeBb.Merge.{replace_bb, names}
use package.llvm_study.SsSccp.{Outcome, finished, undefined, endless, and_then}

-- `CmpInst::Predicate`.
pub data Predicate : Type 0 where
  sgt other_predicate : Predicate

-- A branch stays, or is replaced: the comparison, `TargetBB` and `DeleteBB`. The latter two are not
-- initialised for another predicate than `sgt`.
pub data Choice : Type 0 where
  keep uninitialised : Choice
  fold : ℕ → ℕ → ℕ → Choice

-- The width and the values of two operands that are ConstantInts.
abbrev pub constants : List Value → Option (ℕ × ℕ × ℕ)
constants (const w a ∷ (const v b ∷ _)) = some (w, a, b)
constants _ = none

unfoldable pub find_inst : ℕ → List Instr → Option Instr
find_inst id [] = none
find_inst id (x ∷ xs) = if x.id == id then some x else find_inst id xs

unfoldable pub find_in : ℕ → List Block → Option Instr
unfolding find_inst
find_in id [] = none
find_in id (b ∷ bs) = elim (find_inst id b.insts) [ none ↦ find_in id bs | some x ↦ some x ]

-- An unconditional branch that is created.
abbrev pub branch_to : ℕ → ℕ → Instr
branch_to id target = record { id = id; kind = br; ty = void; operands = block target ∷ [] }

abbrev pub set_term : ℕ → Instr → List Block → List Block
set_term b t [] = []
set_term b t (x ∷ xs) = (if x.name == b then record x { term = t } else x) ∷ set_term b t xs

-- `eraseFromParent` of an instruction.
abbrev pub erase_in : ℕ → List Instr → List Instr
erase_in id [] = []
erase_in id (x ∷ xs) = if x.id == id then erase_in id xs else x ∷ erase_in id xs

abbrev pub erase_inst : ℕ → List Block → List Block
erase_inst id [] = []
erase_inst id (b ∷ bs) = record b { insts = erase_in id b.insts } ∷ erase_inst id bs

-- The blocks, `BBtoEmplace`, and the first free number.
pub record Folding : Type 0 where
  pub blocks : List Block
  pub to_emplace : List (ℕ × ℕ)
  pub next : ℕ

-- The blocks, `vmap`, and the first free number.
pub record Placing : Type 0 where
  pub blocks : List Block
  pub vmap : List (ℕ × ℕ)
  pub next : ℕ

-- What the loop over the instructions of `dst` inserts.
pub record Copied : Type 0 where
  pub insts : List Instr
  pub vmap : List (ℕ × ℕ)
  pub next : ℕ

unfoldable pub copy_insts : List Instr → List (ℕ × ℕ) → ℕ → Copied
unfolding modify
copy_insts [] vmap n = record { insts = []; vmap = vmap; next = n }
copy_insts (x ∷ xs) vmap n =
    let vmap' = modify n x.id (λ _. n) vmap in
    let rest = copy_insts xs vmap' (n + 1) in record rest { insts = clone vmap' n x ∷ rest.insts }

-- `isa<BranchInst>`.
abbrev pub is_br : Kind → Bool
is_br br = true
is_br _ = false

-- The instructions of `dst` that are no branch.
abbrev pub to_copy : Block → List Instr
to_copy y = if is_br y.term.kind then y.insts else y.insts ++ y.term ∷ []

-- `dyn_cast<BasicBlock>` of operand 0.
abbrev pub final_block : List Value → Option ℕ
final_block (block c ∷ _) = some c
final_block _ = none

abbrev pub append_insts : ℕ → List Instr → Instr → List Block → List Block
append_insts b insts t [] = []
append_insts b insts t (x ∷ xs) =
    (if x.name == b then record x { insts = x.insts ++ insts; term = t } else x)
    ∷ append_insts b insts t xs

-- The loop over the instructions of a block that inserts what it copies into the same block.
abbrev pub copied_into_itself : List Instr → Outcome Placing
copied_into_itself [] = undefined
copied_into_itself (x ∷ xs) = endless

-- `BBtoEmplace` has an element.
abbrev pub any_pair : List (ℕ × ℕ) → Bool
any_pair [] = false
any_pair (p ∷ ps) = true

-- `predicate_of` is the cast to `CmpInst` with `getPredicate`, `is_sgt` is `APInt::sgt` at a width, and
-- `delete_dead_block` is LLVM's `DeleteDeadBlock`. `none` is undefined
-- behaviour.
module _ (predicate_of : Instr → Option Predicate) (is_sgt : ℕ → ℕ → ℕ → Bool)
    (predecessors : List Block → ℕ → List ℕ) (delete_dead_block : ℕ → List Block → List Block) where
  -- Step 4: successor 0 where the comparison holds.
  abbrev pub choose_target : ℕ → Option Predicate → Option (ℕ × ℕ × ℕ) → ℕ → ℕ → Choice
  choose_target c (some sgt) (some (w, a, b)) succ1 succ0 =
      if is_sgt w a b then fold c succ0 succ1 else fold c succ1 succ0
  choose_target c (some other_predicate) (some k) succ1 succ0 = uninitialised
  choose_target c _ _ succ1 succ0 = keep

  -- Steps 1 to 4. A conditional branch has its condition as operand 0, and its successors as the
  -- last two operands, successor 1 before successor 0.
  unfoldable pub choose : List Block → Kind → List Value → Choice
  unfolding find_in
  choose bs br (local c ∷ (block succ1 ∷ (block succ0 ∷ []))) = elim (find_in c bs) [
    | none ↦ keep
    | some cmp ↦ choose_target c (predicate_of cmp) (constants cmp.operands) succ1 succ0
  ]
  choose bs _ _ = keep

  unfoldable pub merge_branch_two_bb_to_one_bb : ℕ → ℕ → List Block → List Block
  unfolding replace_bb
  merge_branch_two_bb_to_one_bb erase retain bs = replace_bb (predecessors bs erase) erase retain bs

  -- Steps 5 to 7, for the block `b`. Undefined are the deletion of the block that the loop stands at,
  -- of the block that the new branch goes to, and of a comparison that is still used.
  unfoldable pub fold_branch : ℕ → ℕ → ℕ → ℕ → Folding → Option Folding
  unfolding merge_branch_two_bb_to_one_bb num_uses
  fold_branch b c target dead f =
      let merged = merge_branch_two_bb_to_one_bb dead target f.blocks in
      let bs = set_term b (branch_to f.next target) (delete_dead_block dead merged) in
      if dead == b || dead == target || not (num_uses c bs == 0)
      then none
      else some (record {
        blocks = erase_inst c bs;
        to_emplace = f.to_emplace ++ (b, target) ∷ [];
        next = f.next + 1;
      })

  unfoldable pub fold_block : ℕ → Folding → Option Folding
  unfolding choose fold_branch find_block
  fold_block b f = elim (find_block b f.blocks) [
    | none ↦ some f
    | some x ↦ elim (choose f.blocks x.term.kind x.term.operands) [
      | keep ↦ some f
      | uninitialised ↦ none
      | fold c target dead ↦ fold_branch b c target dead f
    ]
  ]

  -- The loop over the blocks: one that was deleted before its turn is not met.
  unfoldable pub fold_blocks : List ℕ → Folding → Option Folding
  unfolding fold_block
  fold_blocks [] f = some f
  fold_blocks (b ∷ bs) f = elim (fold_block b f) [ none ↦ none | some f' ↦ fold_blocks bs f' ]

  -- Steps 8 to 10. A block with instructions that is copied into itself makes the loop endless, which
  -- meets what it inserts. Undefined are a block that is gone, a block that is deleted though it
  -- branches to itself, and a terminator whose operand 0 is no block.
  unfoldable pub emplace : ℕ → ℕ → Placing → Outcome Placing
  unfolding copy_insts find_block
  emplace src dst p = elim (find_block src p.blocks) [
    | none ↦ undefined
    | some x ↦ elim (find_block dst p.blocks) [
      | none ↦ undefined
      | some y ↦ elim (final_block y.term.operands) [
        | none ↦ if src == dst then copied_into_itself y.insts else undefined
        | some final ↦
            let copied = copy_insts (to_copy y) p.vmap p.next in
            if src == dst
            then copied_into_itself y.insts
            else finished (record {
              blocks =
                  delete_dead_block dst
                    (append_insts src copied.insts (branch_to copied.next final) p.blocks);
              vmap = copied.vmap;
              next = copied.next + 1;
            })
      ]
    ]
  ]

  unfoldable pub emplace_all : List (ℕ × ℕ) → Placing → Outcome Placing
  unfolding emplace
  emplace_all [] p = finished p
  emplace_all ((src, dst) ∷ ps) p = and_then (emplace src dst p) (emplace_all ps)

  -- The second half, from the blocks and `Changed` of the first.
  unfoldable pub fold_branches : List Block → Bool → ℕ → Outcome (List Block × Bool)
  unfolding fold_blocks emplace_all
  fold_branches bs changed n =
      elim (fold_blocks (names bs) (record { blocks = bs; to_emplace = []; next = n })) [
        | none ↦ undefined
        | some f ↦
            and_then
              (emplace_all f.to_emplace (record { blocks = f.blocks; vmap = []; next = f.next }))
              (λ p. finished (p.blocks, changed || any_pair f.to_emplace))
      ]
