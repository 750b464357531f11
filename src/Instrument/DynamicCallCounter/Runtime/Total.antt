-- ===== src/Instrument/DynamicCallCounter/Runtime/Total.antt =====
-- A whole run of a module that lib/DynamicCallCounter.cpp has instrumented.
use llvm_study.Base.{
  ℕ, ◌≡◌, refl, sym, ap, ap₂, ◌∙◌, Bool, true, false, not, List, [], ◌∷◌, ◌++◌, map, if◌then◌else◌,
  All, arith,
}
use mathlib.Core.Bool.{false≢true}
use mathlib.Core.List.{Permᴰ}
use mathlib.Core.Path.{subst}
use llvm_study.Containers.{modify, has, insert_all}
use llvm_study.Containers.Laws.{has-insert_all}
use llvm_study.Counters.Tally.{u32, occurrences}
use llvm_study.Instrument.{
  Text, text_eq, Op, ret_void, call_header, Function, Global, text, uninitialised, Module,
}
use llvm_study.Instrument.InjectFuncCall.{has_function, get_or_insert_function}
use package.llvm_study.Instrument.DynamicCallCounter.{
  Names, counter_name, Step1, instrument, print_lines, define_wrapper, run_on_module,
}
use package.llvm_study.Instrument.DynamicCallCounter.Runtime.{
  Running, steps, body_of, enter_all, initial, whole_run, defined_names,
}
use package.llvm_study.Instrument.DynamicCallCounter.Runtime.Pairs.{pairs}
use package.llvm_study.Instrument.DynamicCallCounter.Runtime.Order.{
  Permᴰ-map, All-Permᴰ, IsItem, pairs-IsItem, map-pairs,
}
use package.llvm_study.Instrument.DynamicCallCounter.Runtime.Counts.{
  AllOriginal, instrumented, instrument-Built, steps-print_lines,
}
use package.llvm_study.Instrument.DynamicCallCounter.Runtime.Bodies.{
  AllDistinct, has_function-instrumented, has_function-defined, Counting, body_of-instrumented,
  body_of-get_or_insert, has_function-kept, has_function-get_or_insert, body_of-wrapper,
  body_of-beside_wrapper,
}
use package.llvm_study.Instrument.DynamicCallCounter.Runtime.Entered.{
  enter_all-lines, enter_all-counts, initial-text, initial-instrument,
}

module _ (c : Names) (order : List (Text × Text) → List (Text × Text)) where
  map-same :
      (f g : Text → Text × ℕ) (ks : List Text) → All (λ k. f k ≡ g k) ks → map f ks ≡ map g ks
  map-same f g [] h = refl
  map-same f g (k ∷ ks) h = ap₂ ◌∷◌ h.0 (map-same f g ks h.1)

  All-has :
      (P : Text → Type 0) (all : List Text)
      → ((k : Text) → has k all ≡ true → P k)
      → (ks : List Text) → ((k : Text) → has k ks ≡ true → has k all ≡ true)
      → All P ks
  unfolding has
  All-has P all h [] sub = tt
  All-has P all h (k ∷ ks) sub = (
    h k (sub k (ground (arith, text_eq.beq_iff k k))),
    All-has P all h ks (λ j e. sub j (ground (arith, e))),
  )

  All-Counting :
      (m : Module) (trace : List Text) (ops : List Op)
      → AllDistinct m.functions
      → All (λ (f : Function). AllOriginal f.body) m.functions
      → has_function c.printf_wrapper m.functions ≡ false
      → text_eq.beq c.printf c.printf_wrapper ≡ false
      → All (λ n. has n (defined_names m.functions) ≡ true) trace
      → All
          (λ n. Counting c n (
            body_of n (
              define_wrapper c.printf_wrapper ops
                (get_or_insert_function c.printf (instrumented c m.functions)))))
          trace
  All-Counting m [] ops distinct plain free other h = tt
  All-Counting m (name ∷ trace) ops distinct plain free other h =
      let fs = instrumented c m.functions in
      let there : has_function name fs ≡ true =
        has_function-instrumented c name m.functions ∙ has_function-defined name m.functions h.0 in
      let r = body_of-instrumented c name m.functions distinct plain h.0 in
      (
        record {
          source = r.source;
          named = r.named;
          plain = r.plain;
          body =
              body_of-beside_wrapper c.printf_wrapper name ops (get_or_insert_function c.printf fs)
                (has_function-get_or_insert c.printf c.printf_wrapper fs other
                  ∙ has_function-instrumented c c.printf_wrapper m.functions
                  ∙ free)
                (has_function-kept c.printf name fs there)
              ∙ body_of-get_or_insert c.printf name fs there
              ∙ r.body;
        },
        All-Counting m trace ops distinct plain free other h.1,
      )

  abbrev before : Module → Step1
  before m = record {
    functions = [];
    globals = m.globals;
    call_counter_map = [];
    func_name_map = [];
    instrumented = false;
  }

  abbrev wrapper_ops : List (Text × Text) → List (Text × Text) → List Op
  wrapper_ops names counters =
      call_header c.header_name ∷ print_lines names (order counters) ++ ret_void ∷ []

  abbrev finish :
      Module
      → List Function
      → List (Text × Text)
      → List (Text × Text)
      → List (Text × Global)
      → Module
  finish m functions names counters globals = record {
    functions =
        define_wrapper c.printf_wrapper (wrapper_ops names counters)
          (get_or_insert_function c.printf functions);
    globals =
        modify uninitialised c.header_name (λ _. text c.header)
          (modify uninitialised c.format_name (λ _. text c.format) globals);
    destructors = m.destructors ++ c.printf_wrapper ∷ [];
  }

  abbrev choose : Bool → Module → Module → Module × Bool
  choose b x y = if not b then (x, false) else (y, true)

  pick : (b : Bool) (x y : Module) → (choose b x y).1 ≡ true → (choose b x y).0 ≡ y
  pick true x y h = refl
  pick false x y h = absurd (false≢true h)

  -- The module that is left, in terms of the names of the defined functions.
  run_on_module-finish :
      (m : Module)
      → (run_on_module c order m).1 ≡ true
      → let keys = insert_all (defined_names m.functions) [] in
        (run_on_module c order m).0
        ≡ finish m
            (instrumented c m.functions)
            (pairs (λ n. n) keys)
            (pairs (counter_name c) keys)
            (instrument c m.functions (before m)).globals
  unfolding run_on_module
  run_on_module-finish m changed =
      let keys = insert_all (defined_names m.functions) [] in
      let st = instrument c m.functions (before m) in
      let built = instrument-Built c m.functions [] (before m) refl refl in
      pick st.instrumented m (finish m st.functions st.func_name_map st.call_counter_map st.globals)
        changed
      ∙ ap (λ fs. finish m fs st.func_name_map st.call_counter_map st.globals) built.functions
      ∙ ap (λ ns. finish m (instrumented c m.functions) ns st.call_counter_map st.globals)
          built.names
      ∙ ap (λ cs. finish m (instrumented c m.functions) (pairs (λ n. n) keys) cs st.globals)
          built.counters

  -- On a module without destructors whose functions have different names and bodies that leave the
  -- counters alone, and which has no function of the wrapper's name, that name being another than
  -- `printf`: where the pass reports a change, and in whatever order the map gives its items, a run
  -- that enters the defined functions `trace` calls `printf` when the module exits, in some order, once
  -- for each defined function, with its name and the number of its entries, as an `unsigned` of 32 bits.
  pub dynamic_counts :
      (m : Module) (trace : List Text)
      → ((items : List (Text × Text)) → Permᴰ (order items) items)
      → m.destructors ≡ []
      → AllDistinct m.functions
      → All (λ (f : Function). AllOriginal f.body) m.functions
      → has_function c.printf_wrapper m.functions ≡ false
      → text_eq.beq c.printf c.printf_wrapper ≡ false
      → All (λ n. has n (defined_names m.functions) ≡ true) trace
      → (run_on_module c order m).1 ≡ true
      → Permᴰ
          (whole_run (run_on_module c order m).0 trace)
          (map (λ n. (n, u32 (occurrences n trace))) (insert_all (defined_names m.functions) []))
  unfolding has
  dynamic_counts m trace ordered exits distinct plain free other entered changed =
      let fs = m.functions in
      let keys = insert_all (defined_names fs) [] in
      let globals = (instrument c fs (before m)).globals in
      let items = pairs (counter_name c) keys in
      let ops = wrapper_ops (pairs (λ n. n) keys) items in
      let left = finish m (instrumented c fs) (pairs (λ n. n) keys) items globals in
      let start : Running = record { counters = initial left.globals; register = 0; lines = [] } in
      let end = enter_all left.functions trace start in
      let counting = All-Counting m trace ops distinct plain free other entered in
      let free_there =
        has_function-get_or_insert c.printf c.printf_wrapper (instrumented c fs) other
        ∙ has_function-instrumented c c.printf_wrapper fs
        ∙ free in
      let counted : (k : Text)
          → has k keys ≡ true
          → (k, end.counters (counter_name c k)) ≡ (k, u32 (occurrences k trace)) =
        λ k inside.
          let defined : has k (defined_names fs) ≡ true =
            sym (has-insert_all k (defined_names fs) []) ∙ inside in
          ap (λ (v : ℕ). (k, v))
            (enter_all-counts c left.functions trace start k 0 counting (
                initial-text c c.header_name (counter_name c k) c.header
                  (modify uninitialised c.format_name (λ _. text c.format) globals)
                  (initial-text c c.format_name (counter_name c k) c.format globals
                    (initial-instrument c fs k (before m) defined)))
              ∙ ap u32 (omega arith)) in
      let line = λ (k : Text). let l : Text × ℕ = (k, end.counters (counter_name c k)) in l in
      let there = All-has (λ k. has k keys ≡ true) keys (λ k h. h) keys (λ k h. h) in
      let shown =
        ap (λ x. whole_run x trace) (run_on_module-finish m changed)
        ∙ ap (λ ds. (enter_all left.functions (ds ++ c.printf_wrapper ∷ []) end).lines) exits
        ∙ ap (λ o. (steps o end).lines)
            (body_of-wrapper c.printf_wrapper ops
              (get_or_insert_function c.printf (instrumented c fs)) free_there)
        ∙ steps-print_lines c (order items) keys end (
            All-Permᴰ (IsItem (counter_name c) keys) (ordered items)
              (pairs-IsItem (counter_name c) keys keys there))
        ∙ ap (λ l. l ++ map (λ (item : Text × Text). line item.0) (order items))
            (enter_all-lines c left.functions trace start counting) in
      let listed =
        map-pairs (counter_name c) line keys
        ∙ map-same line (λ k. (k, u32 (occurrences k trace))) keys
            (All-has (λ k. line k ≡ (k, u32 (occurrences k trace))) keys counted keys (λ k h. h)) in
      subst (λ l. Permᴰ l (map (λ n. (n, u32 (occurrences n trace))) keys)) (sym shown)
        (subst (Permᴰ (map (λ (item : Text × Text). line item.0) (order items))) listed
          (Permᴰ-map (λ (item : Text × Text). line item.0) (ordered items)))
