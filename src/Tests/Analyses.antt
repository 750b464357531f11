-- ===== src/Tests/Analyses.antt =====
-- lib/RIV.cpp, lib/OpcodeCounter.cpp and lib/StaticCallCounter.cpp on concrete functions.
use llvm_study.Base.{ℕ, ◌≤◌, ◌≡◌, refl, ◌||◌, ◌==◌, if◌then◌else◌, List, [], ◌∷◌, none, some, arith}
use llvm_study.Ir.{int, void, other_ty, other}
use llvm_study.Containers.{address_eq, find, at, keys, has, insert_all}
use llvm_study.Counters.Tally.{tally, occurrences}
use llvm_study.Counters.OpcodeCounter.{generate_opcode_map, all_names, generate_opcode_map-tally}
use llvm_study.Counters.StaticCallCounter.{
  CallSites, run_on_module, module_callees, count_calls-tally,
}
use llvm_study.Counters.Report.{main, print_direct_calls, legacy_run_on_module}
use llvm_study.Riv.{Func, DomTrees, leaf, tree, Result, build_riv, legacy_run_on_function}
use llvm_study.Riv.Report.{Line, legacy_print, read_lines, legacy_print-reachable}
use llvm_study.Riv.Visit.{count}
use llvm_study.Riv.Correct.{Dominated, first, later, any_typed, any_defines, build_riv-reachable}

abbrev opcodes : List (List ℕ)
opcodes = (7 ∷ 9 ∷ []) ∷ (7 ∷ []) ∷ []

generate_opcode_map-tally_example :
    find 7 (generate_opcode_map (λ (i : ℕ). i) opcodes)
    ≡ tally (occurrences 7 (all_names (λ (i : ℕ). i) opcodes))
generate_opcode_map-tally_example = generate_opcode_map-tally (λ (i : ℕ). i) opcodes 7

-- The instruction 0 is no call; the others call the function of their number, 9 indirectly.
abbrev sites : CallSites ℕ ℕ
sites = record {
  Operand = ℕ;
  called_value = λ i. if i == 0 then none else some i;
  strip_pointer_casts = λ v. v;
  as_function = λ v. if v == 9 then none else some v;
}

abbrev calls : List (List (List ℕ))
calls = ((3 ∷ 0 ∷ []) ∷ (9 ∷ 4 ∷ []) ∷ []) ∷ ((3 ∷ []) ∷ []) ∷ []

count_calls-tally_example :
    (find 3 (run_on_module sites calls) ≡ tally (occurrences 3 (module_callees sites calls)))
    × (keys (run_on_module sites calls) ≡ insert_all (module_callees sites calls) [])
count_calls-tally_example = count_calls-tally sites calls 3

-- The tool prints what the legacy pass prints; 3 is called twice.
printed_counts :
    (main sites (some calls)).0 ≡ print_direct_calls (legacy_run_on_module sites calls).0
unfolding main legacy_run_on_module print_direct_calls
printed_counts = refl

-- An entry block 10 that branches to 11 and 12; the argument 1 and the global 2 are integers.
abbrev pub diamond : Func
diamond = record {
  entry = 10;
  blocks =
      record {
        name = 10;
        insts = record { id = 20; kind = other 0; ty = int 32; operands = [] } ∷ [];
      }
      ∷ record {
        name = 11;
        insts = record { id = 21; kind = other 0; ty = int 8; operands = [] } ∷ [];
      }
      ∷ record {
        name = 12;
        insts = record { id = 22; kind = other 0; ty = void; operands = [] } ∷ [];
      }
      ∷ [];
  args = record { address = 1; ty = int 64 } ∷ record { address = 3; ty = other_ty 0 } ∷ [];
  globals = record { address = 2; ty = int 1 } ∷ [];
}

abbrev pub below_entry : DomTrees
below_entry = tree 11 leaf (tree 12 leaf leaf)

pub diamond_once : (k : ℕ) → count k (tree 10 below_entry leaf) ≤ 1
diamond_once k = ground arith

pub entry_above_12 : Dominated 10 below_entry (10 ∷ []) 12
entry_above_12 = (refl, 12, leaf, later first, refl)

build_riv-reachable_example :
    (r : Result) × (build_riv diamond 10 below_entry ≡ some r)
    × (has 20 (at [] 12 r) ≡ (
        any_typed diamond.globals 20
        || any_typed diamond.args 20
        || any_defines diamond.blocks (10 ∷ []) 20))
build_riv-reachable_example =
    build_riv-reachable diamond below_entry (10 ∷ []) 12 20 diamond_once entry_above_12

legacy_print-reachable_example :
    (lines : List Line) × (legacy_print (legacy_run_on_function diamond 10 below_entry).0
      ≡ some lines)
    × (has 20 (at [] 12 (read_lines lines).1) ≡ (
        any_typed diamond.globals 20
        || any_typed diamond.args 20
        || any_defines diamond.blocks (10 ∷ []) 20))
legacy_print-reachable_example =
    legacy_print-reachable diamond below_entry (10 ∷ []) 12 20 diamond_once entry_above_12
