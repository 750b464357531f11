-- ===== src/Duplicate/Whole.antt =====
-- `cloneBB` of lib/DuplicateBB.cpp as a whole, on a function, and the loops over the targets in `run` and
-- in the legacy pass's `runOnFunction`.
pub mod Runs
use llvm_study.Base.{
  ℕ, ◌+◌, ◌%◌, ◌^◌, Bool, true, false, List, [], ◌∷◌, ◌++◌, Option, none, some, ◌==◌, if◌then◌else◌,
  length,
}
use llvm_study.Ir.{Value, local, Instr}
use llvm_study.Ir.Builder.{Built}
use llvm_study.Containers.{Eq, address_eq, at, modify}
use llvm_study.Cfg.{Block, find_block, is_phi}
use llvm_study.Mba.Block.{PreservedAnalyses, preserve_none, preserve_all}
use package.llvm_study.Duplicate.Clone.{Cloned, clone_bb}

-- The names that the pass gives to blocks.
pub data Label : Type 0 where
  lt_clone_1 lt_clone_2 lt_tail lt_if_then_else : ℕ → Label

-- The function with its blocks' names, `ReMapper`, `DuplicateBBCount`, and the first free number.
pub record Duplicating : Type 0 where
  pub blocks : List Block
  pub labels : List (ℕ × Label)
  pub re_mapper : List (ℕ × ℕ)
  pub count : ℕ
  pub next : ℕ

-- What SplitBlockAndInsertIfThenElse leaves: the blocks, the parents of `ThenTerm` and `ElseTerm`, their
-- successor, and the first free number.
pub record Split : Type 0 where
  pub blocks : List Block
  pub then_block : ℕ
  pub else_block : ℕ
  pub tail : ℕ
  pub next : ℕ

-- What stands before `getFirstNonPHI`, and the instructions from it on.
unfoldable pub phis_of : List Instr → List Instr
phis_of [] = []
phis_of (x ∷ xs) = if is_phi x.kind then x ∷ phis_of xs else []

unfoldable pub after_phis : List Instr → List Instr
after_phis [] = []
after_phis (x ∷ xs) = if is_phi x.kind then after_phis xs else x ∷ xs

unfoldable pub set_insts : ℕ → List Instr → List Block → List Block
set_insts b insts [] = []
set_insts b insts (x ∷ xs) =
    (if x.name == b then record x { insts = insts } else x) ∷ set_insts b insts xs

abbrev pub insts_of : ℕ → List Block → List Instr
insts_of b bs = elim (find_block b bs) [ none ↦ [] | some x ↦ x.insts ]

-- `ReMapper.count(v) ? ReMapper[v] : v`. A phi takes over the number of the instruction that it
-- replaces.
unfoldable pub context : List (ℕ × ℕ) → ℕ → Value
unfolding at
context re_mapper v = local (at v v re_mapper)

-- `ReMapper[&Instr] = Phi`.
abbrev pub enter_phis_in : List Instr → List (ℕ × ℕ) → List (ℕ × ℕ)
enter_phis_in [] re_mapper = re_mapper
enter_phis_in (p ∷ ps) re_mapper = enter_phis_in ps (modify p.id p.id (λ _. p.id) re_mapper)

-- The clones of the tail's instructions stand before the terminators of the two new blocks, and the
-- phis in place of the instructions.
abbrev pub place_clones : Split → Cloned → List Block
place_clones sp c = set_insts sp.tail c.phis (
    set_insts sp.else_block (insts_of sp.else_block sp.blocks ++ c.else_insts)
      (set_insts sp.then_block (insts_of sp.then_block sp.blocks ++ c.then_insts) sp.blocks))

-- `create_is_null` is IRBuilder's `CreateIsNull`; `split` is SplitBlockAndInsertIfThenElse, from the
-- blocks, the block to split, how many of its instructions stand before the split, the condition and the
-- first free number.
module _ (create_is_null : Value → ℕ → Built) (split : List Block → ℕ → ℕ → Value → ℕ → Split) where
  unfoldable pub clone_bb_in : ℕ → ℕ → Duplicating → Duplicating
  unfolding phis_of after_phis context clone_bb set_insts find_block
  clone_bb_in b v d =
      let insts = insts_of b d.blocks in
      let cond = create_is_null (context d.re_mapper v) d.next in
      let before = phis_of insts ++ cond.insts in
      let sp =
        split (set_insts b (before ++ after_phis insts) d.blocks) b (length before) cond.value
          cond.next in
      let c = clone_bb sp.then_block sp.else_block (insts_of sp.tail sp.blocks) sp.next in
      record {
        blocks = place_clones sp c;
        labels =
            (sp.then_block, lt_clone_1 d.count)
            ∷ (sp.else_block, lt_clone_2 d.count)
            ∷ (sp.tail, lt_tail d.count)
            ∷ (b, lt_if_then_else d.count)
            ∷ d.labels;
        re_mapper = enter_phis_in c.phis d.re_mapper;
        count = (d.count + 1) % 2 ^ 32;
        next = c.next;
      }

  -- The loop over the targets.
  unfoldable pub clone_targets : List (ℕ × ℕ) → Duplicating → Duplicating
  unfolding clone_bb_in
  clone_targets [] d = d
  clone_targets ((b, v) ∷ ts) d = clone_targets ts (clone_bb_in b v d)
