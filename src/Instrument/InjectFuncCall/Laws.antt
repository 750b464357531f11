-- ===== src/Instrument/InjectFuncCall/Laws.antt =====
-- What lib/InjectFuncCall.cpp leaves and what it reports.
use llvm_study.Base.{
  ℕ, ◌≡◌, refl, ap, ap₂, ◌∙◌, Bool, true, false, ◌||◌, not, List, [], ◌∷◌, ◌++◌, Option, some,
  if◌then◌else◌, arith, Bool-cases, inl, inr,
}
use llvm_study.Containers.{find, modify}
use llvm_study.Containers.Laws.{find-modify, beq_self}
use llvm_study.Mba.Block.{preserve_all, preserve_none, preserved}
use llvm_study.Instrument.{
  Text, text_eq, Op, load_counter, store_counter, add_one, ret_void, call_hello, call_header,
  call_line, original, Function, Global, text, uninitialised, Module,
}
use package.llvm_study.Instrument.InjectFuncCall.{
  has_function, get_or_insert_function, inject, inject_all, run_on_module, run,
}

abbrev pub any_defined : List Function → Bool
any_defined [] = false
any_defined (f ∷ fs) = not f.is_declaration || any_defined fs

any_defined-append :
    (fs gs : List Function) → any_defined (fs ++ gs) ≡ (any_defined fs || any_defined gs)
any_defined-append [] gs = refl
any_defined-append (f ∷ fs) gs = ground (arith, any_defined-append fs gs)

any_defined-get_or_insert :
    (name : Text) (fs : List Function)
    → any_defined (get_or_insert_function name fs) ≡ any_defined fs
unfolding get_or_insert_function
any_defined-get_or_insert name fs = ground (
  arith,
  any_defined-append fs
      (record { name = name; is_declaration = true; arg_size = 1; body = [] } ∷ []),
)

-- What a run shows: a call of `printf` on the text of a global, with a function's name and its number
-- of arguments; or another instruction.
pub data Event : Type 0 where
  prints : Option Global → Text → ℕ → Event
  does : Op → Event

-- The events of a body, in its order.
abbrev pub events : List (Text × Global) → List Op → List Event
events globals [] = []
events globals (call_hello fmt name n ∷ ops) = prints (find fmt globals) name n ∷ events globals ops
events globals (op ∷ ops) = does op ∷ events globals ops

abbrev body_of : Text → List Function → List Op
body_of name [] = []
body_of name (f ∷ fs) = if text_eq.beq f.name name then f.body else body_of name fs

-- The events of a run that enters these functions one after the other, up to the calls between them.
abbrev pub output : Module → List Text → List Event
output m [] = []
output m (name ∷ trace) = events m.globals (body_of name m.functions) ++ output m trace

-- For a function that is entered: where it is defined, its name and its number of arguments are printed
-- with the text `format`; then come its own instructions.
abbrev pub entered : Text → List Function → Text → List Event
entered format [] name = []
entered format (f ∷ fs) name =
    if text_eq.beq f.name name
    then (if f.is_declaration
        then events [] f.body
        else prints (some (text format)) f.name f.arg_size ∷ events [] f.body)
    else entered format fs name

abbrev pub greetings : Text → List Function → List Text → List Event
greetings format fs [] = []
greetings format fs (name ∷ trace) = entered format fs name ++ greetings format fs trace

-- No instruction of the program is a call that the pass makes.
abbrev NoHello : List Op → Type 0
NoHello [] = Unit
NoHello (call_hello fmt name n ∷ ops) = ⊥
NoHello (_ ∷ ops) = NoHello ops

abbrev pub AllSilent : List Function → Type 0
AllSilent [] = Unit
AllSilent (f ∷ fs) = NoHello f.body × AllSilent fs

events-NoHello :
    (globals : List (Text × Global)) (ops : List Op)
    → NoHello ops
    → events globals ops ≡ events [] ops
events-NoHello globals [] h = refl
events-NoHello globals (call_hello fmt name n ∷ ops) h = absurd h
events-NoHello globals (load_counter v ∷ ops) h =
    ap (λ l. does (load_counter v) ∷ l) (events-NoHello globals ops h)
events-NoHello globals (store_counter v ∷ ops) h =
    ap (λ l. does (store_counter v) ∷ l) (events-NoHello globals ops h)
events-NoHello globals (add_one ∷ ops) h = ap (λ l. does add_one ∷ l) (events-NoHello globals ops h)
events-NoHello globals (ret_void ∷ ops) h =
    ap (λ l. does ret_void ∷ l) (events-NoHello globals ops h)
events-NoHello globals (call_header v ∷ ops) h =
    ap (λ l. does (call_header v) ∷ l) (events-NoHello globals ops h)
events-NoHello globals (call_line v w ∷ ops) h =
    ap (λ l. does (call_line v w) ∷ l) (events-NoHello globals ops h)
events-NoHello globals (original k ∷ ops) h =
    ap (λ l. does (original k) ∷ l) (events-NoHello globals ops h)

-- The declaration that `getOrInsertFunction` enters.
abbrev declared : Text → Function
declared name = record { name = name; is_declaration = true; arg_size = 1; body = [] }

module _ (printf format : Text) where
  entered-declared :
      (name : Text) (fs : List Function)
      → entered format (fs ++ declared printf ∷ []) name ≡ entered format fs name
  entered-declared name [] = elim (Bool-cases (text_eq.beq printf name)) [
    | inl e ↦ rw e refl
    | inr e ↦ rw e refl
  ]
  entered-declared name (f ∷ fs) = elim (Bool-cases (text_eq.beq f.name name)) [
    | inl e ↦ rw e refl
    | inr e ↦ rw e (entered-declared name fs)
  ]

  AllSilent-declared : (fs : List Function) → AllSilent fs → AllSilent (fs ++ declared printf ∷ [])
  AllSilent-declared [] silent = (tt, tt)
  AllSilent-declared (f ∷ fs) silent = (silent.0, AllSilent-declared fs silent.1)

module _ (printf format_name format : Text) where
  inject_all-defined :
      (fs : List Function) → (inject_all printf format_name format fs).1 ≡ any_defined fs
  unfolding inject_all
  inject_all-defined [] = refl
  inject_all-defined (f ∷ fs) = ground (arith, inject_all-defined fs)

  events-inject_all :
      (globals : List (Text × Global)) (name : Text) (fs : List Function)
      → find format_name globals ≡ some (text format)
      → AllSilent fs
      → events globals (body_of name (inject_all printf format_name format fs).0)
        ≡ entered format fs name
  unfolding inject_all inject
  events-inject_all globals name [] there silent = refl
  events-inject_all globals name (f ∷ fs) there silent =
      elim (Bool-cases (text_eq.beq f.name name)) [
        | inr other ↦ elim (Bool-cases f.is_declaration) [
          | inl e ↦ rw (e, other) (events-inject_all globals name fs there silent.1)
          | inr e ↦ rw (e, other) (events-inject_all globals name fs there silent.1)
        ]
        | inl same ↦ elim (Bool-cases f.is_declaration) [
          | inl e ↦ rw (e, same) (events-NoHello globals f.body silent.0)
          | inr e ↦
              rw (e, same, there)
                (ap (λ l. prints (some (text format)) f.name f.arg_size ∷ l)
                  (events-NoHello globals f.body silent.0))
        ]
      ]

  entered-get_or_insert :
      (name : Text) (fs : List Function)
      → entered format (get_or_insert_function printf fs) name ≡ entered format fs name
  unfolding get_or_insert_function
  entered-get_or_insert name fs = elim (Bool-cases (has_function printf fs)) [
    | inl e ↦ rw e refl
    | inr e ↦ rw e (entered-declared printf format name fs)
  ]

  greetings-get_or_insert :
      (fs : List Function) (trace : List Text)
      → greetings format (get_or_insert_function printf fs) trace ≡ greetings format fs trace
  greetings-get_or_insert fs [] = refl
  greetings-get_or_insert fs (name ∷ trace) =
      ap₂ ◌++◌ (entered-get_or_insert name fs) (greetings-get_or_insert fs trace)

  AllSilent-get_or_insert :
      (fs : List Function) → AllSilent fs → AllSilent (get_or_insert_function printf fs)
  unfolding get_or_insert_function
  AllSilent-get_or_insert fs silent = elim (Bool-cases (has_function printf fs)) [
    | inl e ↦ rw e silent
    | inr e ↦ rw e (AllSilent-declared printf format fs silent)
  ]

  output-inject_all :
      (m : Module) (fs : List Function) (trace : List Text)
      → m.functions ≡ (inject_all printf format_name format fs).0
      → find format_name m.globals ≡ some (text format)
      → AllSilent fs
      → output m trace ≡ greetings format fs trace
  output-inject_all m fs [] same there silent = refl
  output-inject_all m fs (name ∷ trace) same there silent =
      ap₂ ◌++◌
        (ap (λ gs. events m.globals (body_of name gs)) same
          ∙ events-inject_all m.globals name fs there silent)
        (output-inject_all m fs trace same there silent)

  find-format :
      (m : Module)
      → find format_name (modify uninitialised format_name (λ _. text format) m.globals)
        ≡ some (text format)
  find-format m =
      find-modify uninitialised format_name format_name (λ _. text format) m.globals
      ∙ rw (beq_self format_name) refl

  -- On a module none of whose instructions is a call as the pass makes them: whatever functions are
  -- entered, in whatever order, every entry of a defined function first prints the function's name and
  -- its number of arguments with the text of the format, and then runs the function's own instructions;
  -- for a declaration nothing is added.
  pub inject-greets :
      (m : Module) (trace : List Text)
      → AllSilent m.functions
      → output (run_on_module printf format_name format m).0 trace
        ≡ greetings format m.functions trace
  unfolding run_on_module
  inject-greets m trace silent =
      output-inject_all (run_on_module printf format_name format m).0
        (get_or_insert_function printf m.functions) trace refl (find-format m)
        (AllSilent-get_or_insert m.functions silent)
      ∙ greetings-get_or_insert m.functions trace

  -- The pass reports a change exactly when the module defines a function; the global with the
  -- format string is there after it in either case.
  pub inject-reported :
      (m : Module)
      → ((run_on_module printf format_name format m).1 ≡ any_defined m.functions)
        × ((run printf format_name format m).1
            ≡ (if any_defined m.functions then preserve_none else preserve_all))
        × (find format_name (run printf format_name format m).0.globals ≡ some (text format))
  unfolding run_on_module run preserved
  inject-reported m =
      let fs = get_or_insert_function printf m.functions in
      let flag : (inject_all printf format_name format fs).1 ≡ any_defined m.functions =
        inject_all-defined fs ∙ any_defined-get_or_insert printf m.functions in
      (flag, ground (arith, flag), find-format m)
