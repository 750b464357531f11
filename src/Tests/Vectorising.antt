-- ===== src/Tests/Vectorising.antt =====
-- SsLoopVec/SsLoopVec.cpp on the loop of its own test, which adds up an array.
use llvm_study.Base.{
  Bool, ◌||◌, ◌==◌, ap₂, ℕ, ◌+◌, ◌*◌, ◌%◌, ◌^◌, ◌≡◌, refl, List, [], ◌∷◌, true, arith,
}
use llvm_study.SsLoopVec.{
  value, basic_block, Inst, add, get_element_ptr, load, store, alloca, constant_int, Block, Func,
  find_block, insts_of, find_opcode, set_insts, scale_step,
}
use llvm_study.SsLoopVec.Pass.{vectorise}
use llvm_study.SsLoopVec.Exec.{Machine, State, define, exec, exec_all}
use llvm_study.SsLoopVec.Body.{IsSummingBody}
use llvm_study.SsLoopVec.Counted.{load_counter, count_up}
use llvm_study.SsLoopVec.Looping.{IsCounted}
use llvm_study.SsLoopVec.Whole.{IsSummingLoop, Sums, vectorise-Sums}
use llvm_study.SsLoopVec.Step.{step, scale_step-quadruples}

-- Allocas stand at multiples of 1000. The GetElementPtr goes on from the value 0 by the value 4.
abbrev plain : Machine
plain = record {
  symbol = λ op. 0;
  place = λ id. id * 1000;
  effect =
      λ x s. elim x.opcode [ get_element_ptr ↦ define x.id (λ j. s.env 0 0 + s.env 4 0) s | _ ↦ s ];
}

abbrev gep : Inst
gep = record { id = 5; opcode = get_element_ptr; lanes = 1; operands = value 0 ∷ value 4 ∷ [] }

abbrev element : Inst
element = record { id = 6; opcode = load; lanes = 1; operands = value 5 ∷ [] }

abbrev index : Inst
index = record { id = 4; opcode = load; lanes = 1; operands = value 2 ∷ [] }

abbrev old_sum : List Inst
old_sum =
    element
    ∷ record { id = 7; opcode = load; lanes = 1; operands = value 1 ∷ [] }
    ∷ record { id = 8; opcode = add; lanes = 1; operands = value 7 ∷ value 6 ∷ [] }
    ∷ record { id = 9; opcode = store; lanes = 1; operands = value 8 ∷ value 1 ∷ [] }
    ∷ []

abbrev foo : Func
foo = record {
  entry = 1;
  blocks =
      record {
        name = 1;
        insts =
            record { id = 1; opcode = alloca; lanes = 1; operands = [] }
            ∷ record { id = 2; opcode = alloca; lanes = 1; operands = [] }
            ∷ record {
              id = 14;
              opcode = store;
              lanes = 1;
              operands = constant_int 32 0 ∷ value 2 ∷ [];
            }
            ∷ [];
        term = basic_block 2 ∷ [];
      }
      ∷ record {
        name = 2;
        insts = load_counter 3 2 ∷ [];
        term = value 3 ∷ basic_block 5 ∷ basic_block 3 ∷ [];
      }
      ∷ record { name = 3; insts = index ∷ gep ∷ old_sum; term = basic_block 4 ∷ [] }
      ∷ record { name = 4; insts = count_up 10 11 13 2; term = basic_block 2 ∷ [] }
      ∷ record {
        name = 5;
        insts = record { id = 12; opcode = load; lanes = 1; operands = value 1 ∷ [] } ∷ [];
        term = [];
      }
      ∷ [];
}

abbrev users : List Block → ℕ → List Inst
users bs id = element ∷ []

foo-IsSummingBody :
    IsSummingBody users 22
      (set_insts 4 (scale_step 0 (insts_of 4 foo.blocks)) foo.blocks)
      (index ∷ [])
      gep
      element
foo-IsSummingBody = record {
  first = (refl, tt);
  is_gep_there = refl;
  other_numbers = (refl, tt);
  numbered = (omega arith, tt);
  numbered_gep = omega arith;
  used = refl;
  by_load = refl;
  as_pointer = refl;
}

foo-IsSummingLoop : IsSummingLoop users foo 3 4 5 20 (index ∷ []) old_sum gep element 1
unfolding find_block find_opcode
foo-IsSummingLoop = record {
  there_body = (_, refl);
  there_inc = (_, refl);
  there_end = (_, refl);
  there_entry = (_, refl);
  body_inc = refl;
  end_inc = refl;
  end_body = refl;
  entry_inc = refl;
  entry_body = refl;
  entry_end = refl;
  code = refl;
  summing = foo-IsSummingBody;
  small_gep = omega arith;
  loads = refl;
  small_p = omega arith;
}

-- The array is at 50000, and holds threes.
abbrev entering : State
entering = record { env = λ i j. 50000; mem = λ a. 3 }

abbrev outer : ℕ → Bool
outer i = i == 0 || i == 2 || i == 20

foo-IsCounted :
    IsCounted plain outer
      (insts_of 1 foo.blocks)
      (insts_of 2 foo.blocks)
      (index ∷ [])
      (insts_of 4 foo.blocks)
      gep
      20
      2
      2000
      50000
      entering
unfolding find_block exec exec_all
foo-IsCounted = record {
  old = 10;
  new = 11;
  id = 13;
  counts = refl;
  outer_old = refl;
  outer_new = refl;
  outer_ptr = refl;
  outer_tmp = refl;
  below = λ i o. ground (arith, o);
  small_gep = omega arith;
  no_phi = (refl, (refl, (refl, tt)));
  starts = λ u. (refl, refl, refl);
  leaves_sums = λ u a h. ground (arith, h);
  header_mem = λ u a. refl;
  header_outer = λ u i o. ground (arith, o);
  body_mem = λ u a. refl;
  body_outer = λ u i o. ground (arith, o);
  element = λ u o b. ap₂ (λ (v w : ℕ → ℕ). v 0 + u.mem (w 0 + 0)) (o 0 refl) (o 2 refl);
  apart = refl;
}

vectorise-Sums_example :
    Sums plain foo 2 3 4 5 20 (index ∷ []) gep 1 50000 16 entering (vectorise users foo 3 4 5 20)
vectorise-Sums_example =
    vectorise-Sums plain users foo 2 3 4 5 20 (index ∷ []) old_sum gep element 1 outer 2 2000 50000
      16 entering foo-IsSummingLoop
      (record { head_inc = refl; head_body = refl; head_entry = refl; head_end = refl })
      foo-IsCounted (omega arith) (λ i lt. (ground (arith, lt), ground (arith, lt)))

abbrev start : State
start = record { env = λ i j. 7; mem = λ a. 0 }

scale_step-quadruples_example :
    (new : Inst) × (scale_step 0 (index ∷ step true 11 10 1 ∷ []) ≡ index ∷ new ∷ [])
    × (exec plain new start ≡ define 11 (λ j. (7 + 4 * 1) % 2 ^ 32) start)
scale_step-quadruples_example =
    scale_step-quadruples plain true 11 10 1 (index ∷ []) [] start (refl, tt) (omega arith)
