-- ===== src/Instrument/InjectFuncCall.antt =====
-- lib/InjectFuncCall.cpp: a call of `printf` at the beginning of every defined function.
use llvm_study.Base.{Bool, true, false, ◌||◌, not, List, [], ◌∷◌, ◌++◌, if◌then◌else◌}
pub mod Laws
use llvm_study.Mba.Block.{PreservedAnalyses, preserved}
use llvm_study.Containers.{modify}
use package.llvm_study.Instrument.{Text, text_eq, call_hello, Function, text, uninitialised, Module}

abbrev pub has_function : Text → List Function → Bool
has_function name [] = false
has_function name (f ∷ fs) = text_eq.beq f.name name || has_function name fs

-- `getOrInsertFunction`, which declares a missing function.
unfoldable pub get_or_insert_function : Text → List Function → List Function
get_or_insert_function name fs =
    if has_function name fs
    then fs
    else fs ++ record { name = name; is_declaration = true; arg_size = 1; body = [] } ∷ []

module _ (printf format_name format : Text) where
  -- The body of the loop for one function.
  unfoldable pub inject : Function → Function
  inject f =
      if f.is_declaration
      then f
      else record f { body = call_hello format_name f.name f.arg_size ∷ f.body }

  unfoldable pub inject_all : List Function → List Function × Bool
  unfolding inject
  inject_all [] = ([], false)
  inject_all (f ∷ fs) =
      let rest = inject_all fs in (inject f ∷ rest.0, not f.is_declaration || rest.1)

  -- The module left, and whether it was changed.
  unfoldable pub run_on_module : Module → Module × Bool
  unfolding get_or_insert_function inject_all modify
  run_on_module m =
      let r = inject_all (get_or_insert_function printf m.functions) in
      (
        record m {
          functions = r.0;
          globals = modify uninitialised format_name (λ _. text format) m.globals;
        },
        r.1,
      )

  -- What `run` of the new pass returns beside the module.
  unfoldable pub run : Module → Module × PreservedAnalyses
  unfolding run_on_module preserved
  run m = let r = run_on_module m in (r.0, preserved r.1)
