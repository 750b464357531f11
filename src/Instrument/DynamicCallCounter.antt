-- ===== src/Instrument/DynamicCallCounter.antt =====
-- lib/DynamicCallCounter.cpp: every defined function counts its calls, and the counters are
-- printed when the module exits.

use llvm_study.Base.{Bool, true, false, not, List, [], ◌∷◌, ◌++◌, if◌then◌else◌}
pub mod Runtime
use llvm_study.Mba.Block.{PreservedAnalyses, preserved}
use llvm_study.Containers.{at, modify}
use llvm_study.Instrument.InjectFuncCall.{get_or_insert_function}
use package.llvm_study.Instrument.{
  Text, text_eq, Op, load_counter, store_counter, add_one, ret_void, call_header, call_line,
  Function, Global, number, text, uninitialised, Module,
}

-- The names and texts that the pass writes into the module.
pub record Names : Type 0 where
  pub printf : Text
  pub printf_wrapper : Text
  pub counter_for : Text
  pub format_name : Text
  pub format : Text
  pub header_name : Text
  pub header : Text

-- "CounterFor_" and the function's name.
abbrev pub counter_name : Names → Text → Text
counter_name c name = c.counter_for ++ name

-- `CreateGlobalCounter`: declared if it is missing, and initialised with 0.
unfoldable pub create_global_counter : Text → List (Text × Global) → List (Text × Global)
unfolding modify
create_global_counter var globals = modify uninitialised var (λ _. number 0) globals

-- What the loop of STEP 1 has built: the functions, the globals, `CallCounterMap`, `FuncNameMap`,
-- and `Instrumented`.
pub record Step1 : Type 0 where
  pub functions : List Function
  pub globals : List (Text × Global)
  pub call_counter_map : List (Text × Text)
  pub func_name_map : List (Text × Text)
  pub instrumented : Bool

unfoldable pub count_calls : Names → Function → Function
count_calls c f =
    let var = counter_name c f.name in
    record f { body = load_counter var ∷ add_one ∷ store_counter var ∷ f.body }

unfoldable pub instrument : Names → List Function → Step1 → Step1
unfolding count_calls create_global_counter modify
instrument c [] st = st
instrument c (f ∷ fs) st = instrument c fs (
    if f.is_declaration then record st { functions = st.functions ++ f ∷ [] } else record {
      functions = st.functions ++ count_calls c f ∷ [];
      globals = create_global_counter (counter_name c f.name) st.globals;
      call_counter_map = modify [] f.name (λ _. counter_name c f.name) st.call_counter_map;
      func_name_map = modify [] f.name (λ _. f.name) st.func_name_map;
      instrumented = true;
    })

-- STEP 4: the calls for the items of `CallCounterMap`.
unfoldable pub print_lines : List (Text × Text) → List (Text × Text) → List Op
unfolding at
print_lines func_names [] = []
print_lines func_names ((name, var) ∷ items) =
    load_counter var ∷ call_line (at [] name func_names) var ∷ print_lines func_names items

-- `getOrInsertFunction`, and a new basic block at the end of it.
unfoldable pub define_wrapper : Text → List Op → List Function → List Function
define_wrapper name ops [] =
    record { name = name; is_declaration = false; arg_size = 0; body = ops } ∷ []
define_wrapper name ops (f ∷ fs) =
    if text_eq.beq f.name name
    then record f { is_declaration = false; body = f.body ++ ops } ∷ fs
    else f ∷ define_wrapper name ops fs

-- The module left, and whether it was changed. `order` is the order in which a StringMap gives its items.
unfoldable pub run_on_module :
    Names → (List (Text × Text) → List (Text × Text)) → Module → Module × Bool
unfolding instrument get_or_insert_function modify print_lines define_wrapper
run_on_module c order m =
    let st = instrument c m.functions (record {
      functions = [];
      globals = m.globals;
      call_counter_map = [];
      func_name_map = [];
      instrumented = false;
    }) in
    if not st.instrumented
    then (m, false)
    else let wrapper =
        call_header c.header_name ∷ print_lines st.func_name_map (order st.call_counter_map)
        ++ ret_void ∷ [] in
      (
        record {
          functions =
              define_wrapper c.printf_wrapper wrapper
                (get_or_insert_function c.printf st.functions);
          globals =
              modify uninitialised c.header_name (λ _. text c.header)
                (modify uninitialised c.format_name (λ _. text c.format) st.globals);
          destructors = m.destructors ++ c.printf_wrapper ∷ [];
        },
        true,
      )

-- What `run` of the new pass returns beside the module.
unfoldable pub run :
    Names → (List (Text × Text) → List (Text × Text)) → Module → Module × PreservedAnalyses
unfolding run_on_module preserved
run c order m = let r = run_on_module c order m in (r.0, preserved r.1)
