-- ===== src/Cfg/Uses.antt =====
-- The uses of a value, and where an instruction stands.
pub mod Laws
use llvm_study.Base.{
  ℕ, ◌+◌, Bool, true, false, List, [], ◌∷◌, ◌++◌, Option, none, some, ◌==◌, if◌then◌else◌,
}
use llvm_study.Ir.{Value, local, Instr}
use package.llvm_study.Cfg.{Block, value_eq, mentions}

-- An instruction and the block that it stands in.
pub record Placed : Type 0 where
  pub parent : ℕ
  pub inst : Instr

unfoldable pub count_operands : Value → List Value → ℕ
unfolding value_eq
count_operands v [] = 0
count_operands v (x ∷ xs) = (if value_eq x v then 1 else 0) + count_operands v xs

unfoldable pub uses_in : Value → List Instr → ℕ
unfolding count_operands
uses_in v [] = 0
uses_in v (inst ∷ insts) = count_operands v inst.operands + uses_in v insts

-- How many operands of the function are the value `local id`.
unfoldable pub num_uses : ℕ → List Block → ℕ
unfolding uses_in
num_uses id [] = 0
num_uses id (b ∷ bs) =
    uses_in (local id) b.insts + count_operands (local id) b.term.operands + num_uses id bs

abbrev pub user_in : ℕ → ℕ → List Instr → Option Placed
user_in id parent [] = none
user_in id parent (inst ∷ insts) =
    if mentions inst.operands (local id)
    then some (record { parent = parent; inst = inst })
    else user_in id parent insts

abbrev pub or_else : Option Placed → Option Placed → Option Placed
or_else (some x) y = some x
or_else none y = y

-- `*user_begin()` of a value with one use: the instruction that has it as an operand.
unfoldable pub the_user : ℕ → List Block → Option Placed
unfolding value_eq
the_user id [] = none
the_user id (b ∷ bs) = or_else (user_in id b.name (b.insts ++ b.term ∷ [])) (the_user id bs)

abbrev pub defines : List Instr → ℕ → Bool
defines [] id = false
defines (inst ∷ insts) id = if inst.id == id then true else defines insts id

-- The block of the instruction that defines the value, if an instruction does.
unfoldable pub parent_of : ℕ → List Block → Option ℕ
parent_of id [] = none
parent_of id (b ∷ bs) = if defines b.insts id then some b.name else parent_of id bs
