-- ===== src/SsSccp.antt =====
-- SsSCCP/SsSCCP.cpp: constants that are stored to allocas of the entry block are propagated down the
-- dominator tree.
pub mod Replace
pub mod Fold
pub mod Yields
pub mod Walk
pub mod Search
pub mod Gather
pub mod Whole
use llvm_study.Base.{
  ℕ, zero, suc, ◌+◌, ◌^◌, ◌-◌, Bool, true, false, ◌||◌, List, [], ◌∷◌, ◌++◌, Option, none, some,
  if◌then◌else◌, ◌==◌, ltb, map, not,
}
use llvm_study.Containers.{Eq, address_eq, find, modify}
use llvm_study.Ir.{Value, const, local, Kind, alloca, store, Instr}
use llvm_study.Riv.{DomTrees, leaf, tree}

abbrev pub is_store : Kind → Bool
is_store store = true
is_store _ = false

-- AllocaInfo; the `int` as its 32 bits.
pub record AllocaInfo : Type 0 where
  pub bb : ℕ
  pub num : ℕ

abbrev pub AllocaMap : Type 0
AllocaMap = List (ℕ × AllocaInfo)

-- `getLimitedValue(~0U)`.
abbrev pub limited : ℕ → ℕ
limited n = if ltb n (2 ^ 32) then n else 2 ^ 32 - 1

-- The loop over the users of an alloca: a later store of a constant overrides an earlier one.
abbrev pub stored_constant : Instr → Option ℕ
stored_constant user =
    if is_store user.kind
    then elim user.operands [ const w n ∷ _ ↦ some (limited n) | _ ↦ none ]
    else none

unfoldable pub gather_users : ℕ → ℕ → List Instr → AllocaMap → AllocaMap
unfolding modify
gather_users bb id [] m = m
gather_users bb id (user ∷ users) m = gather_users bb id users (elim (stored_constant user) [
  | none ↦ m
  | some n ↦ let info : AllocaInfo = record { bb = bb; num = n } in modify info id (λ _. info) m
])

-- `SCCP_GatherAlloca`; `users` of an instruction, in the order of LLVM's use lists.
unfoldable pub gather_alloca : (ℕ → List Instr) → ℕ → List Instr → AllocaMap → AllocaMap
unfolding gather_users
gather_alloca users bb [] m = m
gather_alloca users bb (x ∷ xs) m =
    gather_alloca users bb xs (elim x.kind [ alloca ↦ gather_users bb x.id (users x.id) m | _ ↦ m ])

-- What a walk ends with: a state, a failed `cast`, undefined behaviour, a loop that never ends, or no
-- fuel.
pub data Outcome {ℓ} (S : Type ℓ) : Type ℓ where
  finished : S → Outcome S
  cast_failed undefined endless out_of_fuel : Outcome S

abbrev pub and_then {ℓ} : {S T : Type ℓ} → Outcome S → (S → Outcome T) → Outcome T
and_then (finished s) k = k s
and_then cast_failed k = cast_failed
and_then undefined k = undefined
and_then endless k = endless
and_then out_of_fuel k = out_of_fuel

-- A node of the dominator tree, with its level and the trees below it.
pub record Node : Type 0 where
  pub block : ℕ
  pub level : ℕ
  pub below : DomTrees

abbrev pub nodes_of : ℕ → DomTrees → List Node
nodes_of level leaf = []
nodes_of level (tree b children siblings) =
    record { block = b; level = level; below = children } ∷ nodes_of (suc level) children
    ++ nodes_of level siblings

-- `getDescendants`: the node itself and all that it dominates.
abbrev pub descendants : Node → List Node
descendants n = n ∷ nodes_of (suc n.level) n.below

module _ {ℓ} {S : Type ℓ} where
  abbrev pub each_at : ℕ → (Node → S → Outcome S) → List Node → S → Outcome S
  each_at level visit [] s = finished s
  each_at level visit (n ∷ ns) s =
      if n.level == level
      then and_then (visit n s) (each_at level visit ns)
      else each_at level visit ns s

  -- The recursion of `SCCP_SearchDFS` and of `SCCP_ReplaceAllocaWithConstantDFS`, which visit the
  -- descendants at one level and call themselves for each of them at the next; with fuel.
  unfoldable pub walk : (ℕ → S → Outcome S) → ℕ → Node → ℕ → S → Outcome S
  walk visit zero n level s = out_of_fuel
  walk visit (suc fuel) n level s =
      each_at level (λ d t. and_then (visit d.block t) (walk visit fuel d (suc level)))
        (descendants n) s

-- The instructions of the blocks.
abbrev pub Blocks : Type 0
Blocks = ℕ → List Instr

unfoldable pub erase : ℕ → AllocaMap → AllocaMap
erase k [] = []
erase k ((j, info) ∷ m) = if j == k then erase k m else (j, info) ∷ erase k m

-- `is_inst` tells the values of instructions from arguments.
module _ (is_inst : ℕ → Bool) where
  -- The pointer operand of a store, where it is an instruction.
  abbrev pub pointer : List Value → Option ℕ
  pointer (_ ∷ local p ∷ _) = if is_inst p then some p else none
  pointer _ = none

  -- The loop over the instructions of a block in `SCCP_SearchDFS`. The `cast` of the pointer operand
  -- fails where that is no instruction.
  unfoldable pub erase_stored : List Instr → AllocaMap → Outcome AllocaMap
  unfolding erase
  erase_stored [] m = finished m
  erase_stored (x ∷ xs) m =
      if is_store x.kind
      then elim (pointer x.operands) [ some p ↦ erase_stored xs (erase p m) | none ↦ cast_failed ]
      else erase_stored xs m

  -- `SCCP_SearchDFS`.
  unfoldable pub search_dfs : Blocks → ℕ → Node → ℕ → AllocaMap → Outcome AllocaMap
  unfolding walk erase_stored
  search_dfs blocks fuel n level m = walk (λ b m'. erase_stored (blocks b) m') fuel n level m
