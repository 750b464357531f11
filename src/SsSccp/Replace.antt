-- ===== src/SsSccp/Replace.antt =====
-- `SCCP_ReplaceAllocaWithConstantDFS` of SsSCCP/SsSCCP.cpp, and the first loop of `DoSCCP`.
pub mod Unchanged
use llvm_study.Base.{
  ℕ, Bool, true, false, ◌||◌, List, [], ◌∷◌, Option, none, some, if◌then◌else◌, ◌==◌, map, not,
}
use llvm_study.Containers.{address_eq, find, modify}
use llvm_study.Ir.{Value, local, Instr}
use llvm_study.Riv.{DomTrees}
use package.llvm_study.SsSccp.{
  AllocaInfo, AllocaMap, gather_alloca, Outcome, finished, and_then, Node, descendants, each_at,
  walk, Blocks, search_dfs,
}

-- `dyn_cast<Instruction>` of an operand, and `find`.
abbrev pub look : AllocaMap → Value → Option AllocaInfo
look m (local p) = find p m
look m _ = none

-- The entry of the last operand that has one.
abbrev pub last_entry : AllocaMap → List Value → Option AllocaInfo → Option AllocaInfo
last_entry m [] acc = acc
last_entry m (op ∷ ops) acc = last_entry m ops (elim (look m op) [ none ↦ acc | some i ↦ some i ])

-- The blocks while they change, and `ReplaceMap`.
pub record Replacing : Type 0 where
  pub blocks : Blocks
  pub replace_map : AllocaMap

abbrev pub set_block : ℕ → List Instr → Blocks → Blocks
set_block b xs blocks c = if c == b then xs else blocks c

-- `eraseFromParent` of every instruction that was entered.
abbrev pub keep_others : AllocaMap → List Instr → List Instr
keep_others rm [] = []
keep_others rm (x ∷ xs) = elim (find x.id rm) [
  | none ↦ x ∷ keep_others rm xs
  | some i ↦ keep_others rm xs
]

abbrev pub is_empty : AllocaMap → Bool
is_empty [] = true
is_empty (e ∷ m) = false

-- The loop over `ReplaceMap`, with `Changed`.
abbrev pub erase_entered : Bool → Replacing → Outcome (Blocks × Bool)
erase_entered changed r =
    finished (λ b. keep_others r.replace_map (r.blocks b), changed || not (is_empty r.replace_map))

-- `is_inst` tells the values of instructions from arguments, and `constant_of` is `ConstantInt::get`
-- for the type of an instruction.
module _ (is_inst : ℕ → Bool) (constant_of : ℕ → ℕ → Value) where
  abbrev pub replace_operand : AllocaMap → Value → Value
  replace_operand rm (local p) = elim (find p rm) [ none ↦ local p | some i ↦ constant_of p i.num ]
  replace_operand rm op = op

  -- The loop over the instructions of a block: an instruction that has an alloca of the map as an
  -- operand is entered; the entered operands of any other are replaced.
  unfoldable pub replace_insts : AllocaMap → List Instr → AllocaMap → List Instr × AllocaMap
  unfolding modify find
  replace_insts am [] rm = ([], rm)
  replace_insts am (x ∷ xs) rm = elim (last_entry am x.operands none) [
    | some i ↦ let rest = replace_insts am xs (modify i x.id (λ _. i) rm) in (x ∷ rest.0, rest.1)
    | none ↦
        let rest = replace_insts am xs rm in
        (record x { operands = map (replace_operand rm) x.operands } ∷ rest.0, rest.1)
  ]

  abbrev pub replace_block : AllocaMap → ℕ → Replacing → Outcome Replacing
  replace_block am b r =
      let done = replace_insts am (r.blocks b) r.replace_map in
      finished (record { blocks = set_block b done.0 r.blocks; replace_map = done.1 })

  -- `SCCP_ReplaceAllocaWithConstantDFS`.
  unfoldable pub replace_dfs : AllocaMap → ℕ → Node → ℕ → Replacing → Outcome Replacing
  unfolding walk replace_insts
  replace_dfs am fuel n level st = walk (replace_block am) fuel n level st

  -- The body of the first loop of `DoSCCP`, for a block at level 1.
  unfoldable pub propagate_below : ℕ → AllocaMap → Node → Blocks × Bool → Outcome (Blocks × Bool)
  unfolding search_dfs replace_dfs
  propagate_below fuel am n (blocks, changed) =
      and_then (search_dfs is_inst blocks fuel n 1 am) (λ local_map.
        and_then (replace_dfs local_map fuel n 1 (record { blocks = blocks; replace_map = [] }))
          (erase_entered changed))

  -- The first half of `DoSCCP`, from the entry block, the root of the tree.
  unfoldable pub propagate : (ℕ → List Instr) → ℕ → ℕ → DomTrees → Blocks → Outcome (Blocks × Bool)
  unfolding propagate_below gather_alloca
  propagate users fuel entry below blocks =
      each_at 1 (propagate_below fuel (gather_alloca users entry (blocks entry) []))
        (descendants (record { block = entry; level = 0; below = below })) (blocks, false)
