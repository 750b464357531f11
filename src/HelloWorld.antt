-- ===== src/HelloWorld.antt =====
-- HelloWorld/HelloWorld.cpp: the pass prints the name of a function and how many arguments it has.
use llvm_study.Base.{ℕ, Bool, false, List, [], ◌∷◌}
use llvm_study.Mba.Block.{PreservedAnalyses, preserve_all}

-- A line that is printed.
pub data Line (Name : Type 0) : Type 0 where
  hello_from : Name → Line Name
  number_of_arguments : ℕ → Line Name

pub record Function (Name : Type 0) : Type 0 where
  pub name : Name
  pub arg_size : ℕ

module _ {Name : Type 0} where
  unfoldable pub visitor : Function Name → List (Line Name)
  visitor f = hello_from f.name ∷ number_of_arguments f.arg_size ∷ []

  -- What `run` prints and returns, and the legacy pass's `runOnFunction`.
  unfoldable pub run : Function Name → List (Line Name) × PreservedAnalyses
  unfolding visitor
  run f = (visitor f, preserve_all)

  unfoldable pub legacy_run_on_function : Function Name → List (Line Name) × Bool
  unfolding visitor
  legacy_run_on_function f = (visitor f, false)
