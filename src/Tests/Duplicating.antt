-- ===== src/Tests/Duplicating.antt =====
-- lib/DuplicateBB.cpp on concrete functions.
use mathlib.Core.Bool.{false≢true}
use llvm_study.Base.{
  ltb, ℕ, ◌+◌, ◌<◌, ◌≡◌, ◌≢◌, refl, Bool, true, ◌||◌, ◌==◌, List, [], ◌∷◌, All, some, inl, arith,
}
use llvm_study.Ir.{local, void, Instr, other, add}
use llvm_study.Ir.Exec.{State, exec_all, Agree, IsScoped}
use llvm_study.Riv.{Result, build_riv, is_integer}
use llvm_study.Riv.Correct.{any_typed, any_defines}
use llvm_study.Duplicate.{Queries, find_bbs_to_duplicate}
use llvm_study.Duplicate.Select.{IsTarget, find_bbs_to_duplicate-All, context_value-dominates}
use llvm_study.Duplicate.Clone.{clone_bb}
use llvm_study.Duplicate.Clone.Joined.{IsTyped}
use llvm_study.Duplicate.Clone.Laws.{after_clone, clone_bb-Agree}
use package.llvm_study.Tests.Machines.{counting, op_inst}
use package.llvm_study.Tests.Analyses.{diamond, below_entry, diamond_once, entry_above_12}

-- The first value is drawn; the value 2 is a global.
abbrev first_drawn : Queries
first_drawn = record { is_landing_pad = λ b. b == 11; is_global = λ v. v == 2; pick = λ i n. 0 }

first_drawn_in_range : (i n : ℕ) → 0 < n → 0 < n
first_drawn_in_range i n h = h

-- What RIV finds on the diamond.
abbrev reached : Result
reached = (10, 2 ∷ 1 ∷ []) ∷ (11, 20 ∷ 2 ∷ 1 ∷ []) ∷ (12, 20 ∷ 2 ∷ 1 ∷ []) ∷ []

find_bbs_to_duplicate-All_example :
    All
      (IsTarget first_drawn reached)
      (find_bbs_to_duplicate first_drawn reached (10 ∷ 11 ∷ 12 ∷ []))
find_bbs_to_duplicate-All_example =
    find_bbs_to_duplicate-All first_drawn reached first_drawn_in_range (10 ∷ 11 ∷ 12 ∷ [])

built : build_riv diamond 10 below_entry ≡ some reached
unfolding build_riv
built = refl

globals_count : (w : ℕ) → any_typed diamond.globals w ≡ true → first_drawn.is_global w ≡ true
unfolding is_integer
globals_count w h = ground arith

context_value-dominates_example :
    (any_typed diamond.args 20 || any_defines diamond.blocks (10 ∷ []) 20) ≡ true
unfolding find_bbs_to_duplicate
context_value-dominates_example =
    context_value-dominates first_drawn diamond below_entry reached (10 ∷ 11 ∷ 12 ∷ []) (10 ∷ []) 12
      20 first_drawn_in_range globals_count diamond_once built (inl refl) entry_above_12

-- Two instructions, the second of which uses the first, numbered below 4; the arguments are 0 and 1.
abbrev pub tail : List Instr
tail =
    op_inst add 32 (local 0) (local 1) 2
    ∷ record { id = 3; kind = other 0; ty = void; operands = local 2 ∷ [] }
    ∷ []

abbrev pub valued : ℕ → Bool
valued i = ltb i 3

abbrev start : State ℕ
start = record { env = λ i. i + 5; mem = 0 }

pub tail-IsScoped : All (IsScoped 4) tail
tail-IsScoped = ground arith

pub tail-IsTyped : All (IsTyped valued) tail
tail-IsTyped = (
  record { void_no_value = λ h. absurd (false≢true h); operands_valued = (refl, (refl, tt)) },
  (record { void_no_value = λ h. refl; operands_valued = (refl, tt) }, tt),
)

differ : ◌≢◌ {A = ℕ} 31 32
differ e = omega arith

clone_bb-Agree_example :
    let c = clone_bb 31 32 tail 4 in
    Agree counting 4
      (after_clone 31 32 counting 31 c.then_insts c.phis start)
      (exec_all counting tail start)
    × Agree counting 4
        (after_clone 31 32 counting 32 c.else_insts c.phis start)
        (exec_all counting tail start)
clone_bb-Agree_example =
    clone_bb-Agree 31 32 counting 4 valued tail start start differ
      (record { same_mem = refl; same_env = λ i h. refl }) tail-IsScoped tail-IsTyped
