-- ===== src/Instrument/DynamicCallCounter/Runtime/Counts.antt =====
-- The instrumented functions count, and the wrapper prints the counters.
use llvm_study.Base.{
  ◌+◌, ◌≡◌, refl, sym, ap, ◌∙◌, Bool, true, List, [], ◌∷◌, ◌++◌, map, if◌then◌else◌, All, arith,
  Bool-cases, inl, inr, append_assoc, append-nil,
}
use llvm_study.Containers.{at, modify, insert, insert_all}
use llvm_study.Counters.Tally.{u32}
use llvm_study.Instrument.{
  Text, text_eq, Op, load_counter, store_counter, add_one, ret_void, call_hello, call_header,
  call_line, original, Function,
}
use package.llvm_study.Instrument.DynamicCallCounter.{
  Names, counter_name, create_global_counter, Step1, count_calls, instrument, print_lines,
}
use package.llvm_study.Instrument.DynamicCallCounter.Runtime.{Running, steps, defined_names}
use package.llvm_study.Instrument.DynamicCallCounter.Runtime.Order.{IsItem}
use package.llvm_study.Instrument.DynamicCallCounter.Runtime.Pairs.{pairs, modify-pairs, at-pairs}

-- The instructions are the program's own.
abbrev pub AllOriginal : List Op → Type 0
AllOriginal [] = Unit
AllOriginal (original k ∷ ops) = AllOriginal ops
AllOriginal (_ ∷ ops) = ⊥

steps-AllOriginal : (ops : List Op) (s : Running) → AllOriginal ops → steps ops s ≡ s
steps-AllOriginal [] s h = refl
steps-AllOriginal (original k ∷ ops) s h = steps-AllOriginal ops s h
steps-AllOriginal (load_counter _ ∷ ops) s h = absurd h
steps-AllOriginal (store_counter _ ∷ ops) s h = absurd h
steps-AllOriginal (add_one ∷ ops) s h = absurd h
steps-AllOriginal (ret_void ∷ ops) s h = absurd h
steps-AllOriginal (call_hello _ _ _ ∷ ops) s h = absurd h
steps-AllOriginal (call_header _ ∷ ops) s h = absurd h
steps-AllOriginal (call_line _ _ ∷ ops) s h = absurd h

pub text_beq-append : (p s t : Text) → text_eq.beq (p ++ s) (p ++ t) ≡ text_eq.beq s t
text_beq-append [] s t = refl
text_beq-append (a ∷ p) s t = ground (arith, text_beq-append p s t)

module _ (c : Names) where
  -- What the first loop makes of the functions and of its two maps.
  abbrev pub instrumented : List Function → List Function
  instrumented [] = []
  instrumented (f ∷ fs) = (if f.is_declaration then f else count_calls c f) ∷ instrumented fs

  pub record Built (fs : List Function) (keys : List Text) (st done : Step1) : Type 0 where
    pub functions : done.functions ≡ st.functions ++ instrumented fs
    pub counters :
        done.call_counter_map ≡ pairs (counter_name c) (insert_all (defined_names fs) keys)
    pub names : done.func_name_map ≡ pairs (λ n. n) (insert_all (defined_names fs) keys)

  pub instrument-Built :
      (fs : List Function) (keys : List Text) (st : Step1)
      → st.call_counter_map ≡ pairs (counter_name c) keys
      → st.func_name_map ≡ pairs (λ n. n) keys
      → Built fs keys st (instrument c fs st)
  unfolding instrument insert_all
  instrument-Built [] keys st h k = record {
    functions = sym (append-nil st.functions);
    counters = h;
    names = k;
  }
  instrument-Built (f ∷ fs) keys st h k = elim (Bool-cases f.is_declaration) [
    | inl e ↦
        let next : Step1 = record st { functions = st.functions ++ f ∷ [] } in
        let r = instrument-Built fs keys next h k in
        record {
          functions = simp e (r.functions ∙ append_assoc st.functions (f ∷ []) (instrumented fs));
          counters = simp e r.counters;
          names = simp e r.names;
        }
    | inr e ↦
        let next : Step1 = record {
          functions = st.functions ++ count_calls c f ∷ [];
          globals = create_global_counter (counter_name c f.name) st.globals;
          call_counter_map = modify [] f.name (λ _. counter_name c f.name) st.call_counter_map;
          func_name_map = modify [] f.name (λ _. f.name) st.func_name_map;
          instrumented = true;
        } in
        let r =
          instrument-Built fs (insert f.name keys) next
            (ap (modify [] f.name (λ _. counter_name c f.name)) h
              ∙ modify-pairs (counter_name c) [] f.name keys)
            (ap (modify [] f.name (λ _. f.name)) k ∙ modify-pairs (λ n. n) [] f.name keys) in
        let skipped : Step1 = record st { functions = st.functions ++ f ∷ [] } in
        let here : instrument c (f ∷ fs) st ≡ instrument c fs next =
          ap (λ (b : Bool). instrument c fs (if b then skipped else next)) e in
        record {
          functions =
              ap (λ (d : Step1). d.functions) here
              ∙ r.functions
              ∙ append_assoc st.functions (count_calls c f ∷ []) (instrumented fs)
              ∙ ap
                  (λ (b : Bool).
                    st.functions ++ (if b then f else count_calls c f) ∷ instrumented fs)
                  (sym e);
          counters =
              ap (λ (d : Step1). d.call_counter_map) here
              ∙ r.counters
              ∙ ap
                  (λ (b : Bool).
                    pairs (counter_name c)
                      (insert_all (if b then defined_names fs else f.name ∷ defined_names fs) keys))
                  (sym e);
          names =
              ap (λ (d : Step1). d.func_name_map) here
              ∙ r.names
              ∙ ap
                  (λ (b : Bool).
                    pairs (λ n. n)
                      (insert_all (if b then defined_names fs else f.name ∷ defined_names fs) keys))
                  (sym e);
        }
  ]

  -- An entry of an instrumented function.
  pub steps-entered :
      (f : Function) (s : Running) (k : Text)
      → AllOriginal f.body
      → ((steps (count_calls c f).body s).lines ≡ s.lines)
        × ((steps (count_calls c f).body s).counters (counter_name c k) ≡ (
            if text_eq.beq k f.name
            then u32 (s.counters (counter_name c k) + 1)
            else s.counters (counter_name c k)))
  unfolding count_calls
  steps-entered f s k h =
      let var = counter_name c f.name in
      let counted = steps (load_counter var ∷ add_one ∷ store_counter var ∷ []) s in
      let rest = steps-AllOriginal f.body counted h in
      (
        ap (λ (r : Running). r.lines) rest,
        ap (λ (r : Running). r.counters (counter_name c k)) rest
            ∙ elim (Bool-cases (text_eq.beq k f.name)) [
              | inl e ↦
                  let same : k ≡ f.name = (text_eq.beq_iff k f.name).0 e in
                  rw (text_beq-append c.counter_for k f.name, e)
                    (ap (λ n. u32 (s.counters (counter_name c n) + 1)) (sym same))
              | inr e ↦ rw (text_beq-append c.counter_for k f.name, e) refl
            ],
      )

  -- The wrapper.
  pub steps-print_lines :
      (items : List (Text × Text)) (all : List Text) (s : Running)
      → All (IsItem (counter_name c) all) items
      → (steps (print_lines (pairs (λ n. n) all) items ++ ret_void ∷ []) s).lines
        ≡ s.lines
          ++ map (λ (item : Text × Text). (item.0, s.counters (counter_name c item.0))) items
  unfolding print_lines
  steps-print_lines [] all s h = sym (append-nil s.lines)
  steps-print_lines ((k, var) ∷ items) all s h =
      let v = s.counters var in
      let name = at [] k (pairs (λ n. n) all) in
      let printed = steps (load_counter var ∷ call_line name var ∷ []) s in
      let rest = map (λ (item : Text × Text). (item.0, s.counters (counter_name c item.0))) items in
      steps-print_lines items all printed h.1
      ∙ append_assoc s.lines ((name, v) ∷ []) rest
      ∙ ap (λ n. s.lines ++ (n, v) ∷ rest) (at-pairs (λ n. n) [] k all h.0.1)
      ∙ ap (λ w. s.lines ++ (k, s.counters w) ∷ rest) h.0.0
