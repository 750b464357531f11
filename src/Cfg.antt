-- ===== src/Cfg.antt =====
-- A function as its basic blocks, as far as lib/MergeBB.cpp looks at it. A block is known by its
-- number; its terminator stands apart from its other instructions.
pub mod Uses
pub mod Named
use llvm_study.Base.{
  ℕ, ◌+◌, ◌≡◌, ◌↔◌, Bool, true, false, ◌&&◌, ◌||◌, List, [], ◌∷◌, ◌++◌, Option, none, some, ◌==◌,
  ==_iff, if◌then◌else◌, refl, arith,
}
use llvm_study.Ir.{
  Value, const, local, block, global, undef, Kind, phi, dbg, br, switch, Instr, operand,
}

pub record Block : Type 0 where
  pub name : ℕ
  pub insts : List Instr
  pub term : Instr

-- The entry block is the first.
pub record Func : Type 0 where
  pub entry : ℕ
  pub blocks : List Block

-- Operands are pointers, and constants are unique: equal when they refer to the same.
unfoldable pub value_eq : Value → Value → Bool
value_eq (const w n) (const v m) = w == v && n == m
value_eq (local i) (local j) = i == j
value_eq (block a) (block b) = a == b
value_eq (global g) (global h) = g == h
value_eq undef undef = true
value_eq _ _ = false

pub value_eq_iff : (x y : Value) → (value_eq x y ≡ true) ↔ (x ≡ y)
unfolding value_eq
value_eq_iff (const w n) (const v m) = ground arith
value_eq_iff x y = ground arith

unfoldable pub find_block : ℕ → List Block → Option Block
find_block b [] = none
find_block b (x ∷ xs) = if x.name == b then some x else find_block b xs

-- `isa<PHINode>`, `isa<DbgInfoIntrinsic>`.
abbrev pub is_phi : Kind → Bool
is_phi (phi blocks) = true
is_phi _ = false

abbrev pub is_dbg : Kind → Bool
is_dbg dbg = true
is_dbg _ = false

-- `isa<BranchInst>` or `isa<SwitchInst>`.
abbrev pub is_br_or_switch : Kind → Bool
is_br_or_switch br = true
is_br_or_switch switch = true
is_br_or_switch _ = false

-- The target of an unconditional branch: a branch with one operand.
unfoldable pub unconditional_target : Kind → List Value → Option ℕ
unconditional_target br (block b ∷ []) = some b
unconditional_target _ _ = none

-- `getIncomingValueForBlock`: the value beside the first entry for the block.
abbrev pub incoming_from : List ℕ → List Value → ℕ → Option Value
incoming_from (c ∷ blocks) (v ∷ values) b = if c == b then some v else incoming_from blocks values b
incoming_from _ _ b = none

unfoldable pub incoming_value : Instr → ℕ → Option Value
incoming_value inst b = elim inst.kind [
  | phi blocks ↦ incoming_from blocks inst.operands b
  | _ ↦ none
]

-- Does an operand of the terminator refer to the block?
abbrev pub mentions : List Value → Value → Bool
mentions [] v = false
mentions (x ∷ xs) v = value_eq x v || mentions xs v

abbrev pub branches_to : Block → ℕ → Bool
branches_to x b = mentions x.term.operands (block b)

-- The block that a branch goes to, after the language reference.
abbrev pub goes : (ℕ → ℕ) → Kind → List Value → Option ℕ
goes env br (block t ∷ []) = some t
goes env br (local c ∷ (block succ1 ∷ (block succ0 ∷ []))) =
    if env c == 0 then some succ1 else some succ0
goes env _ _ = none
