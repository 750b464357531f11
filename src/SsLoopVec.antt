-- ===== src/SsLoopVec.antt =====
-- SsLoopVec/SsLoopVec.cpp: a loop that sums up an array is made to add four elements at a time.
-- Instructions and blocks are known by their addresses; the terminator of a block stands apart. The
-- number of iterations that the source reads from the loop's comparison is not used there.
pub mod Exec
pub mod Pass
pub mod Sum
pub mod Body
pub mod Rounds
pub mod Counted
pub mod Looping
pub mod Whole
pub mod Step
use llvm_study.Base.{
  ℕ, zero, suc, ◌+◌, ◌*◌, ◌-◌, ◌%◌, ◌^◌, Bool, true, false, not, ◌&&◌, List, [], ◌∷◌, ◌++◌, Option,
  none, some, ◌==◌, ltb, if◌then◌else◌, get_or,
}
use llvm_study.Containers.{Eq, address_eq}
use llvm_study.Mba.Block.{PreservedAnalyses, preserved}

-- A ConstantInt of type iw with its unsigned value, an instruction or an argument, a block, or
-- anything else.
pub data Operand : Type 0 where
  constant_int : ℕ → ℕ → Operand
  value basic_block other_operand : ℕ → Operand

pub data Opcode : Type 0 where
  add get_element_ptr bit_cast load store alloca extract_element phi : Opcode
  other : ℕ → Opcode

-- `lanes` is 1 for a scalar type, and the number of elements of a vector type; a store has that of
-- the value stored, an alloca and a bitcast that of the type pointed to.
pub record Inst : Type 0 where
  pub id : ℕ
  pub opcode : Opcode
  pub lanes : ℕ
  pub operands : List Operand

pub record Block : Type 0 where
  pub name : ℕ
  pub insts : List Inst
  pub term : List Operand

pub record Func : Type 0 where
  pub entry : ℕ
  pub blocks : List Block

-- `getHeader`, and `getExitBlock`, which is null where there are several.
pub record Loop : Type 0 where
  pub header : ℕ
  pub exit : Option ℕ

abbrev pub interleave_factor : ℕ
interleave_factor = 4

-- `getLimitedValue(~0U)`.
abbrev pub limited : ℕ → ℕ
limited n = if ltb n (2 ^ 32) then n else 2 ^ 32 - 1

abbrev pub is_add : Opcode → Bool
is_add add = true
is_add _ = false

abbrev pub is_gep : Opcode → Bool
is_gep get_element_ptr = true
is_gep _ = false

abbrev pub is_load : Opcode → Bool
is_load load = true
is_load _ = false

abbrev pub is_phi : Opcode → Bool
is_phi phi = true
is_phi _ = false

unfoldable pub find_block : ℕ → List Block → Option Block
find_block b [] = none
find_block b (x ∷ xs) = if x.name == b then some x else find_block b xs

unfoldable pub set_insts : ℕ → List Inst → List Block → List Block
set_insts b insts [] = []
set_insts b insts (x ∷ xs) =
    (if x.name == b then record x { insts = insts } else x) ∷ set_insts b insts xs

abbrev pub is_exit : Option ℕ → ℕ → Bool
is_exit none b = false
is_exit (some e) b = e == b

-- The loop over the operands of the header's terminator: the last block that is not the exit.
abbrev pub find_body : Option ℕ → List Operand → Option ℕ → Option ℕ
find_body exit [] body = body
find_body exit (basic_block b ∷ ops) body =
    find_body exit ops (if is_exit exit b then body else some b)
find_body exit (_ ∷ ops) body = find_body exit ops body

-- `dyn_cast<BasicBlock>(getOperand(0))`.
abbrev pub target0 : List Operand → Option ℕ
target0 (basic_block b ∷ _) = some b
target0 _ = none

-- The loop over the operands `ops` of an addition `all`, with the counter `i`: the last ConstantInt, with
-- its width, and `opVal`.
abbrev pub scan_add :
    List Operand → List Operand → ℕ → Option (ℕ × ℕ × Operand) → Option (ℕ × ℕ × Operand)
scan_add all [] i found = found
scan_add all (constant_int w n ∷ ops) i found =
    scan_add all ops (i + 1) (some (w, n, get_or all (if i == 1 then 0 else 1) (other_operand 0)))
scan_add all (_ ∷ ops) i found = scan_add all ops (i + 1) found

abbrev pub count_from : List Operand → ℕ → ℕ
count_from [] i = i
count_from (op ∷ ops) i = count_from ops (i + 1)

-- The loop over the instructions of `LInc`. The counter goes on from one addition to the next. The
-- new instruction takes over the uses of the old one, and so its number.
unfoldable pub scale_step : ℕ → List Inst → List Inst
scale_step i [] = []
scale_step i (x ∷ xs) = elim (is_add x.opcode) [
  | false ↦ x ∷ scale_step i xs
  | true ↦ elim (scan_add x.operands x.operands i none) [
    | none ↦ x ∷ scale_step (count_from x.operands i) xs
    | some (w, n, op) ↦
        record x { operands = op ∷ constant_int w (limited n * interleave_factor % 2 ^ w) ∷ [] }
        ∷ xs
  ]
]

unfoldable pub find_opcode : (Opcode → Bool) → List Inst → Option Inst
find_opcode p [] = none
find_opcode p (x ∷ xs) = if p x.opcode then some x else find_opcode p xs

abbrev pub insert_after : ℕ → List Inst → List Inst → List Inst
insert_after id new [] = []
insert_after id new (x ∷ xs) = if x.id == id then x ∷ (new ++ xs) else x ∷ insert_after id new xs

abbrev pub is_value : Operand → ℕ → Bool
is_value (value i) j = i == j
is_value _ j = false

-- What stands right after the GetElementPtr, `LoadCast`, and the first free number.
pub record Casts : Type 0 where
  pub inserted : List Inst
  pub load_cast : Option ℕ
  pub next : ℕ

abbrev pub bit_cast_of : ℕ → ℕ → Inst
bit_cast_of id ptr = record {
  id = id;
  opcode = bit_cast;
  lanes = interleave_factor;
  operands = value ptr ∷ [];
}

abbrev pub load_of : ℕ → ℕ → Inst
load_of id ptr = record {
  id = id;
  opcode = load;
  lanes = interleave_factor;
  operands = value ptr ∷ [];
}

-- The loop over the operands of one user of the GetElementPtr `gep`.
unfoldable pub cast_user : ℕ → Bool → List Operand → Casts → Casts
cast_user gep loads [] c = c
cast_user gep loads (op ∷ ops) c =
    if is_value op gep
    then (if loads
        then record {
          inserted = bit_cast_of c.next gep ∷ load_of (c.next + 1) c.next ∷ c.inserted;
          load_cast = some (c.next + 1);
          next = c.next + 2;
        }
        else cast_user gep loads ops
            (record c { inserted = bit_cast_of c.next gep ∷ c.inserted; next = c.next + 1 }))
    else cast_user gep loads ops c

unfoldable pub cast_users : ℕ → List Inst → Casts → Casts
unfolding cast_user
cast_users gep [] c = c
cast_users gep (user ∷ users) c =
    cast_users gep users (cast_user gep (is_load user.opcode) user.operands c)

-- `LoadAllocaTmp`, `VecTmpSum` and `StoreTmpBack`, from the number `n` on.
abbrev pub accumulate : ℕ → ℕ → ℕ → List Inst
accumulate n load_cast tmp =
    load_of n tmp
    ∷ record {
      id = n + 1;
      opcode = add;
      lanes = interleave_factor;
      operands = value n ∷ value load_cast ∷ [];
    }
    ∷ record {
      id = n + 2;
      opcode = store;
      lanes = interleave_factor;
      operands = value (n + 1) ∷ value tmp ∷ [];
    }
    ∷ []

-- The cleanup: nothing is left between the instruction `id` and the terminator.
unfoldable pub drop_after : ℕ → List Inst → List Inst
drop_after id [] = []
drop_after id (x ∷ xs) = if x.id == id then x ∷ [] else x ∷ drop_after id xs

-- Insertion before `getFirstNonPHI`.
unfoldable pub insert_front : List Inst → List Inst → List Inst
insert_front new [] = new
insert_front new (x ∷ xs) = if is_phi x.opcode then x ∷ insert_front new xs else new ++ x ∷ xs

-- `AllocaTmp` and `StoreTmp`, of a vector of zeros.
abbrev pub alloca_zero : ℕ → List Inst
alloca_zero n =
    record { id = n; opcode = alloca; lanes = interleave_factor; operands = [] }
    ∷ record {
      id = n + 1;
      opcode = store;
      lanes = interleave_factor;
      operands = constant_int 32 0 ∷ value n ∷ [];
    }
    ∷ []

abbrev pub extract_of : ℕ → ℕ → ℕ → Inst
extract_of id vec i = record {
  id = id;
  opcode = extract_element;
  lanes = 1;
  operands = value vec ∷ constant_int 64 i ∷ [];
}

abbrev pub add_of : ℕ → ℕ → ℕ → Inst
add_of id a b = record { id = id; opcode = add; lanes = 1; operands = value a ∷ value b ∷ [] }

-- The sum of the four elements, which is stored to `ptr`.
unfoldable pub sum_up : ℕ → ℕ → Operand → List Inst
sum_up n tmp ptr =
    load_of n tmp
    ∷ extract_of (n + 1) n 0
    ∷ extract_of (n + 2) n 1
    ∷ add_of (n + 3) (n + 1) (n + 2)
    ∷ extract_of (n + 4) n 2
    ∷ extract_of (n + 5) n 3
    ∷ add_of (n + 6) (n + 4) (n + 5)
    ∷ add_of (n + 7) (n + 3) (n + 6)
    ∷ record { id = n + 8; opcode = store; lanes = 1; operands = value (n + 7) ∷ ptr ∷ [] }
    ∷ []

-- What a loop's vectorisation ends with: undefined behaviour, `return false`, or the function and the
-- first free number.
pub data Outcome : Type 0 where
  undefined : Outcome
  not_handled : Func → Outcome
  vectorised : Func → ℕ → Outcome

-- The operand of the first load of `LEnd`.
abbrev pub final_pointer : List Inst → Option Operand
final_pointer insts = elim (find_opcode is_load insts) [
  | none ↦ none
  | some x ↦ some (get_or x.operands 0 (other_operand 0))
]

abbrev pub insts_of : ℕ → List Block → List Inst
insts_of b bs = elim (find_block b bs) [ none ↦ [] | some x ↦ x.insts ]
