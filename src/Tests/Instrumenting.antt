-- ===== src/Tests/Instrumenting.antt =====
-- lib/InjectFuncCall.cpp and lib/DynamicCallCounter.cpp on a concrete module.
use llvm_study.Base.{map, ◌≡◌, refl, true, false, List, [], ◌∷◌, some, if◌then◌else◌}
use mathlib.Core.List.{Permᴰ, reverse}
use mathlib.Core.List.Permᴰ
use llvm_study.Containers.{find, has, insert_all}
use llvm_study.Counters.Tally.{u32, occurrences}
use llvm_study.Instrument.DynamicCallCounter as Dynamic
use llvm_study.Instrument.DynamicCallCounter.{Names}
use llvm_study.Instrument.DynamicCallCounter.Runtime.{whole_run, defined_names}
use llvm_study.Instrument.DynamicCallCounter.Runtime.Total.{dynamic_counts}
use llvm_study.Mba.Block.{preserve_all, preserve_none}
use llvm_study.Instrument.{text_eq, Text, original, text, Module}
use llvm_study.Instrument.InjectFuncCall.{run_on_module, run}
use llvm_study.Instrument.InjectFuncCall.Laws.{
  any_defined, output, greetings, inject-reported, inject-greets,
}

-- A function `m` with two arguments, a function `f`, and the declaration of `g`.
abbrev calling : Module
calling = record {
  functions =
      record { name = 109 ∷ []; is_declaration = false; arg_size = 2; body = original 0 ∷ [] }
      ∷ record { name = 102 ∷ []; is_declaration = false; arg_size = 0; body = [] }
      ∷ record { name = 103 ∷ []; is_declaration = true; arg_size = 1; body = [] }
      ∷ [];
  globals = [];
  destructors = [];
}

abbrev printf : Text
printf = 112 ∷ []

abbrev format_name : Text
format_name = 80 ∷ []

abbrev format : Text
format = 72 ∷ 105 ∷ []

inject-reported_example :
    ((run_on_module printf format_name format calling).1 ≡ any_defined calling.functions)
    × ((run printf format_name format calling).1
        ≡ (if any_defined calling.functions then preserve_none else preserve_all))
    × (find format_name (run printf format_name format calling).0.globals ≡ some (text format))
inject-reported_example = inject-reported printf format_name format calling

abbrev trace : List Text
trace = (109 ∷ []) ∷ (102 ∷ []) ∷ (103 ∷ []) ∷ (102 ∷ []) ∷ []

inject-greets_example :
    output (run_on_module printf format_name format calling).0 trace
    ≡ greetings format calling.functions trace
inject-greets_example = inject-greets printf format_name format calling trace (tt, (tt, (tt, tt)))

abbrev dynamic_names : Names
dynamic_names = record {
  printf = printf;
  printf_wrapper = 119 ∷ [];
  counter_for = 67 ∷ [];
  format_name = 82 ∷ [];
  format = 37 ∷ [];
  header_name = 83 ∷ [];
  header = 61 ∷ [];
}

-- The functions of `calling` that are entered: `f` twice, `m` once.
abbrev calls : List Text
calls = (102 ∷ []) ∷ (109 ∷ []) ∷ (102 ∷ []) ∷ []

dynamic_counts_example :
    Permᴰ
      (whole_run (Dynamic.run_on_module dynamic_names reverse calling).0 calls)
      (map (λ n. (n, u32 (occurrences n calls))) (insert_all (defined_names calling.functions) []))
unfolding Dynamic.run_on_module has
dynamic_counts_example =
    dynamic_counts dynamic_names reverse calling calls (λ items. Permᴰ.reverse items) refl
      (refl, (refl, (refl, tt))) (tt, (tt, (tt, tt))) refl refl (refl, (refl, (refl, tt))) refl
