-- ===== src/Riv.antt =====
-- lib/RIV.cpp: for every basic block the integer values that are reachable from it.
-- Blocks and values are known by their addresses. The dominator tree is LLVM's, an input.
pub mod Visit
pub mod Loop
pub mod Correct
pub mod Report
use llvm_study.Base.{
  ℕ, zero, suc, ◌+◌, Bool, true, false, List, [], ◌∷◌, Option, none, some, if◌then◌else◌,
}
use llvm_study.Ir.{Ty, int, other_ty, Instr}
use llvm_study.Containers.{Eq, address_eq, at, modify, insert, insert_all}

pub record Block : Type 0 where
  pub name : ℕ
  pub insts : List Instr

-- A global variable with its value type, or an argument with its type.
pub record Typed : Type 0 where
  pub address : ℕ
  pub ty : Ty

-- A function, with the list of globals of its module.
pub record Func : Type 0 where
  pub entry : ℕ
  pub blocks : List Block
  pub args : List Typed
  pub globals : List Typed

-- The dominator trees of some blocks: a tree's block, its children, and the trees after it.
pub data DomTrees : Type 0 where
  leaf : DomTrees
  tree : ℕ → DomTrees → DomTrees → DomTrees

abbrev pub PtrSet : Type 0
PtrSet = List ℕ

abbrev pub Result : Type 0
Result = List (ℕ × PtrSet)

unfoldable pub is_integer : Ty → Bool
is_integer (int w) = true
is_integer _ = false

unfoldable pub insert_insts : List Instr → PtrSet → PtrSet
unfolding is_integer insert
insert_insts [] s = s
insert_insts (inst ∷ insts) s =
    insert_insts insts (if is_integer inst.ty then insert inst.id s else s)

unfoldable pub insert_typed : List Typed → PtrSet → PtrSet
unfolding is_integer insert
insert_typed [] s = s
insert_typed (x ∷ xs) s = insert_typed xs (if is_integer x.ty then insert x.address s else s)

-- STEP 1: the integer values defined in each block.
unfoldable pub defined_values : List Block → Result → Result
unfolding insert_insts modify
defined_values [] m = m
defined_values (b ∷ blocks) m =
    defined_values blocks (modify [] b.name (λ s. insert_insts b.insts s) m)

-- STEP 2: the integer globals and arguments, for the entry block.
unfoldable pub entry_values : Func → Result
unfolding insert_typed modify
entry_values f = modify [] f.entry (λ s. insert_typed f.args (insert_typed f.globals s)) []

-- The loop over the children of a node: they are pushed, and their sets grow by the values defined
-- in the parent and by the parent's set. The deque is the trees whose roots it holds, its back
-- first.
unfoldable pub visit_children : PtrSet → PtrSet → DomTrees → DomTrees → Result → DomTrees × Result
unfolding modify insert_all
visit_children defs rivs leaf deque m = (deque, m)
visit_children defs rivs (tree child below siblings) deque m =
    visit_children defs rivs siblings (tree child below deque)
      (modify [] child (λ s. insert_all rivs s) (modify [] child (λ s. insert_all defs s) m))

-- STEP 3: the `while` loop, with fuel; `none` means that the fuel ran out.
unfoldable pub process : ℕ → Result → DomTrees → Result → Option Result
unfolding visit_children modify at
process fuel defined leaf m = some m
process zero defined (tree parent children deque) m = none
process (suc fuel) defined (tree parent children deque) m =
    let m' = modify [] parent (λ s. s) m in
    let r = visit_children (at [] parent defined) (at [] parent m') children deque m' in
    process fuel defined r.0 r.1

-- The number of blocks in the trees.
unfoldable pub size : DomTrees → ℕ
size leaf = 0
size (tree b children siblings) = suc (size children + size siblings)

-- `buildRIV`, with a round for each block that the root dominates.
unfoldable pub build_riv : Func → ℕ → DomTrees → Option Result
unfolding process defined_values entry_values size
build_riv f root children =
    process (suc (size children)) (defined_values f.blocks []) (tree root children leaf)
      (entry_values f)

-- `runOnFunction` of the legacy pass: `RIVMap`, and no change.
unfoldable pub legacy_run_on_function : Func → ℕ → DomTrees → Option Result × Bool
unfolding build_riv
legacy_run_on_function f root children = (build_riv f root children, false)
