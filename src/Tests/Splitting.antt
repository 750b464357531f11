-- ===== src/Tests/Splitting.antt =====
-- `cloneBB` of lib/DuplicateBB.cpp on a function of one block.
use llvm_study.Base.{
  ℕ, zero, suc, ◌+◌, refl, inl, inr, Bool-cases, List, [], ◌∷◌, ◌++◌, ◌==◌, if◌then◌else◌, get_or,
  arith,
}
use llvm_study.Ir.{Value, local, block, int, void, br, other, other_terminator, Instr}
use llvm_study.Ir.Builder.{Built}
use llvm_study.Ir.Exec.{Machine, State, Agree, exec, exec_all, result}
use llvm_study.Containers.{address_eq, at}
use llvm_study.Cfg.{Block, find_block}
use llvm_study.Duplicate.Whole.{
  Duplicating, Split, phis_of, after_phis, set_insts, context, clone_bb_in,
}
use llvm_study.Duplicate.Whole.Runs.{IsSplit, Runs, split_of, clone_bb_in-Runs}
use package.llvm_study.Tests.Duplicating.{tail, valued, tail-IsScoped, tail-IsTyped}

-- Every instruction that is no arithmetic tests its first operand for zero.
abbrev testing : Machine
testing = record {
  Mem = ℕ;
  symbol = λ v. 0;
  effect = λ kind ty vals mem. (if get_or vals 0 0 == 0 then 1 else 0, mem);
}

abbrev is_null : Value → ℕ → Built
is_null v n = record {
  value = local n;
  insts = record { id = n; kind = other 5; ty = int 1; operands = v ∷ [] } ∷ [];
  next = n + 1;
}

abbrev first_insts : ℕ → List Instr → List Instr
first_insts zero xs = []
first_insts (suc k) [] = []
first_insts (suc k) (x ∷ xs) = x ∷ first_insts k xs

abbrev last_insts : ℕ → List Instr → List Instr
last_insts zero xs = xs
last_insts (suc k) [] = []
last_insts (suc k) (x ∷ xs) = last_insts k xs

abbrev new_block : ℕ → ℕ → Block
new_block name id = record {
  name = name;
  insts = [];
  term = record { id = id; kind = br; ty = void; operands = block 33 ∷ [] };
}

abbrev split_blocks : List Block → ℕ → ℕ → Value → ℕ → List Block
split_blocks [] b k cond n = []
split_blocks (x ∷ xs) b k cond n =
    if x.name == b
    then record x {
      insts = first_insts k x.insts;
      term = record { id = n; kind = br; ty = void; operands = cond ∷ block 32 ∷ block 31 ∷ [] };
    }
      ∷ new_block 31 (n + 1)
      ∷ new_block 32 (n + 2)
      ∷ record { name = 33; insts = last_insts k x.insts; term = x.term }
      ∷ xs
    else x ∷ split_blocks xs b k cond n

abbrev split : List Block → ℕ → ℕ → Value → ℕ → Split
split bs b k cond n = record {
  blocks = split_blocks bs b k cond n;
  then_block = 31;
  else_block = 32;
  tail = 33;
  next = n + 3;
}

abbrev last : Instr
last = record { id = 3; kind = other_terminator 0; ty = void; operands = [] }

abbrev before : Duplicating
before = record {
  blocks = record { name = 1; insts = tail; term = last } ∷ [];
  labels = [];
  re_mapper = [];
  count = 0;
  next = 4;
}

abbrev tested : Built
tested = is_null (context [] 0) 4

before-IsSplit : IsSplit 1 (phis_of tail ++ tested.insts) (after_phis tail) last 5 (
    split
      (set_insts 1 (phis_of tail ++ tested.insts ++ after_phis tail) before.blocks)
      1
      1
      (local 4)
      5)
unfolding phis_of after_phis set_insts context find_block at
before-IsSplit = record {
  head = _;
  found_head = refl;
  keeps = refl;
  branches =
      λ env. elim (Bool-cases (env 4 == 0)) [ inl e ↦ inr (rw e refl) | inr e ↦ inl (rw e refl) ];
  then_there = _;
  found_then = refl;
  empty_then = refl;
  then_on = λ env. refl;
  else_there = _;
  found_else = refl;
  empty_else = refl;
  else_on = λ env. refl;
  tail_there = _;
  found_tail = refl;
  has_rest = refl;
  has_term = refl;
  grows = omega arith;
  differ1 = refl;
  differ2 = refl;
  differ3 = refl;
  differ4 = refl;
  differ5 = refl;
  differ6 = refl;
}

tested-keeps : (s : State ℕ) → Agree testing 4 (exec_all testing tested.insts s) s
unfolding exec_all exec result context at
tested-keeps s = record { same_mem = refl; same_env = λ i h. ground (arith, h) }

clone_bb_in-Runs_example :
    Runs testing 4 1
      (phis_of tail)
      (after_phis tail)
      tested.insts
      last
      (split_of testing valued is_null split 1 0 before last)
      (clone_bb_in is_null split 1 0 before).blocks
unfolding phis_of after_phis set_insts context find_block at
clone_bb_in-Runs_example =
    clone_bb_in-Runs testing valued is_null split 1 0 before last before-IsSplit (omega arith)
      tested-keeps tail-IsScoped tail-IsTyped
