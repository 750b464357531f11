-- ===== src/Tests/Mba.antt =====
-- lib/MBASub.cpp, lib/MBAAdd.cpp and lib/Ratio.cpp on concrete functions.
use llvm_study.Base.{
  ℕ, zero, suc, ◌≡◌, refl, ◌↔◌, Bool, false, List, [], ◌∷◌, All, ltb, ◌==◌, arith, Option, none,
  some, if◌then◌else◌, ◌*◌, ◌-◌,
}
use llvm_study.Ir.{const, local, void, Instr, other, add, sub}
use llvm_study.Ir.Exec.{IsScoped}
use llvm_study.Ratio.{Float, Strtod, Ratio, stored, parse, parse_stored}
use llvm_study.Mba.Keeps.{KeepsBlocks}
use llvm_study.Mba.Sub
use llvm_study.Mba.Add
use llvm_study.Mba.Sub.Run.{mba_sub-Keeps, mba_sub-preserve_all}
use llvm_study.Mba.Add.Run.{
  mba_add-Keeps, mba_add-preserve_all, mba_add-subst_count, count_passes, count_adds,
}
use package.llvm_study.Tests.Machines.{counting, plain, plain-IsBuilder, op_inst}

-- The arguments are the values 0 and 1. Two blocks: a subtraction and a store, and an addition.
abbrev first_block : List Instr
first_block =
    op_inst sub 32 (local 0) (local 1) 2
    ∷ record { id = 3; kind = other 0; ty = void; operands = local 2 ∷ [] }
    ∷ []

abbrev second_block : List Instr
second_block = op_inst add 8 (local 2) (const 8 7) 4 ∷ op_inst add 8 (local 4) (local 0) 5 ∷ []

abbrev blocks : List (List Instr)
blocks = first_block ∷ second_block ∷ []

blocks-IsScoped : All (All (IsScoped 6)) blocks
blocks-IsScoped = ground arith

-- Doubles as numbers of hundredths.
abbrev hundredths : Float
hundredths = record { Double = ℕ; zero_point = 0; one_point = 100; lt = ltb }

abbrev half : Ratio ℕ
half = record { value = 50 }

abbrev draws : ℕ → ℕ
draws zero = 30
draws (suc i) = 80

mba_sub-Keeps_example : KeepsBlocks counting 6 blocks (Sub.run_on_function plain blocks 6).blocks
mba_sub-Keeps_example =
    mba_sub-Keeps counting plain (plain-IsBuilder counting) blocks 6 blocks-IsScoped

mba_sub-preserve_all_example :
    (Sub.run_on_function plain (second_block ∷ []) 6).blocks ≡ second_block ∷ []
unfolding Sub.run_on_function Sub.run
mba_sub-preserve_all_example = mba_sub-preserve_all plain (second_block ∷ []) 6 refl

mba_add-Keeps_example :
    KeepsBlocks counting 6 blocks (Add.run_on_function hundredths half draws plain blocks 6).blocks
mba_add-Keeps_example =
    mba_add-Keeps hundredths half draws counting plain (plain-IsBuilder counting) blocks 6
      blocks-IsScoped

mba_add-preserve_all_example :
    (Add.run_on_function hundredths half draws plain (first_block ∷ []) 6).blocks ≡ first_block ∷ []
unfolding Add.run_on_function Add.run
mba_add-preserve_all_example =
    mba_add-preserve_all hundredths half draws plain (first_block ∷ []) 6 refl

mba_add-subst_count_example :
    (Add.run_on_basic_block hundredths half draws plain second_block 6).subst_count
    ≡ count_passes hundredths half draws 0 (count_adds second_block)
mba_add-subst_count_example = mba_add-subst_count hundredths half draws plain second_block 6

-- A `strtod` that reads one byte, a digit, as that many tenths.
abbrev one_digit : List ℕ → Strtod ℕ
one_digit (c ∷ _) =
    if ltb c 58
    then record { number = 10 * (c - 48); consumed = 1 }
    else record { number = 0; consumed = 0 }
one_digit [] = record { number = 0; consumed = 0 }

parse_stored_example :
    (parse hundredths one_digit (55 ∷ []) ≡ stored (record { value = 70 }))
    ↔ ((1 == 0) ≡ false) × (ltb 70 0 ≡ false) × (ltb 100 70 ≡ false) × ◌≡◌ {A = ℕ} 70 70
parse_stored_example = parse_stored hundredths one_digit (55 ∷ []) 70

abbrev lt_nan : Option ℕ → Option ℕ → Bool
lt_nan (some a) (some b) = ltb a b
lt_nan _ _ = false

lt_nan-none : (x : Option ℕ) → lt_nan x none ≡ false
lt_nan-none none = refl
lt_nan-none (some a) = refl

-- Doubles with NaN, which compares with nothing.
abbrev with_nan : Float
with_nan = record { Double = Option ℕ; zero_point = some 0; one_point = some 100; lt = lt_nan }
