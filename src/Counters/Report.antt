-- ===== src/Counters/Report.antt =====
-- What `printStaticCCResult` of lib/StaticCallCounter.cpp and `printOpcodeCounterResult` of
-- lib/OpcodeCounter.cpp print, and the driver tools/StaticMain.cpp. A line stands for its text; the padding
-- of the columns is left out. The options of the command line and the parser of IR files are LLVM's.
use llvm_study.Base.{ℕ, Bool, false, List, [], ◌∷◌, Option, none, some}
use llvm_study.Containers.{Eq}
use llvm_study.Mba.Block.{PreservedAnalyses, preserve_all}
use package.llvm_study.Counters.StaticCallCounter.{CallSites, run_on_module}

-- A double or single rule, the title, with the function's name where there is one, the names of the
-- columns, an entry, an empty line, and the message for a file that is not read.
pub data Line (Key : Type 0) : Type 0 where
  double_rule single_rule title column_names blank read_error : Line Key
  title_of : ℕ → Line Key
  entry : Key → ℕ → Line Key

module _ {Key : Type 0} where
  -- The loop over the entries, and what is printed after it.
  unfoldable pub print_entries : List (Key × ℕ) → List (Line Key)
  print_entries [] = single_rule ∷ blank ∷ []
  print_entries ((k, n) ∷ m) = entry k n ∷ print_entries m

  unfoldable pub print_static_cc_result : List (Key × ℕ) → List (Line Key)
  unfolding print_entries
  print_static_cc_result m =
      double_rule ∷ title ∷ double_rule ∷ column_names ∷ single_rule ∷ print_entries m

  -- `print` of the legacy StaticCallCounter, of the map that `runOnModule` left.
  unfoldable pub print_direct_calls : List (Key × ℕ) → List (Line Key)
  unfolding print_static_cc_result
  print_direct_calls direct_calls = print_static_cc_result direct_calls

  unfoldable pub print_opcode_counter_result : List (Key × ℕ) → ℕ → List (Line Key)
  unfolding print_entries
  print_opcode_counter_result m name =
      double_rule ∷ title_of name ∷ double_rule ∷ column_names ∷ single_rule ∷ print_entries m

module _ {Inst Fn : Type 0} ⦃e : Eq Fn⦄ (c : CallSites Inst Fn) where
  -- `StaticCallCounter::run`.
  unfoldable pub run : List (List (List Inst)) → List (Fn × ℕ)
  run funcs = run_on_module c funcs

  -- `runOnModule` of the legacy pass: `DirectCalls`, and no change.
  unfoldable pub legacy_run_on_module : List (List (List Inst)) → List (Fn × ℕ) × Bool
  legacy_run_on_module funcs = (run_on_module c funcs, false)

  -- `run` of `StaticCCWrapper`, with the result of the analysis.
  unfoldable pub run_wrapper : List (List (List Inst)) → List (Line Fn) × PreservedAnalyses
  unfolding run print_static_cc_result
  run_wrapper funcs = (print_static_cc_result (run funcs), preserve_all)

  unfoldable pub count_static_calls : List (List (List Inst)) → List (Line Fn)
  unfolding run_wrapper
  count_static_calls funcs = (run_wrapper funcs).0

  -- What `main` ends with: `return 0` or `return -1`.
  pub data Exit : Type 0 where
    success failure : Exit

  -- `main`, from what `parseIRFile` gives; it prints an error where that is null.
  unfoldable pub main : Option (List (List (List Inst))) → List (Line Fn) × Exit
  unfolding count_static_calls
  main none = (read_error ∷ [], failure)
  main (some funcs) = (count_static_calls funcs, success)
