-- ===== src/Instrument/DynamicCallCounter/Runtime.antt =====
-- What a module instrumented by lib/DynamicCallCounter.cpp does when it runs: the counters, and the
-- lines that `printf_wrapper` prints.
pub mod Pairs
pub mod Order
pub mod Counts
pub mod Bodies
pub mod Entered
pub mod Total
use llvm_study.Base.{
  ℕ, ◌+◌, ◌%◌, ◌^◌, ◌≡◌, refl, sym, ap, ap₂, ◌∙◌, Bool, true, false, ◌||◌, ◌&&◌, not, List, [], ◌∷◌,
  ◌++◌, map, Option, none, some, if◌then◌else◌, ◌==◌, All, arith, Bool-cases, inl, inr,
}
use llvm_study.Containers.{Eq, find}
use llvm_study.Counters.Tally.{u32}
use llvm_study.Instrument.{
  Text, text_eq, Op, load_counter, store_counter, add_one, ret_void, call_hello, call_header,
  call_line, original, Function, Global, number, Module,
}

-- The counters, the register, and what `printf` got for the lines.
pub record Running : Type 0 where
  pub counters : Text → ℕ
  pub register : ℕ
  pub lines : List (Text × ℕ)

-- `original` stands for instructions of the program, which do not touch the counters.
abbrev pub step : Op → Running → Running
step (load_counter var) s = record s { register = s.counters var }
step add_one s = record s { register = u32 (s.register + 1) }
step (store_counter var) s = record s {
  counters = λ v. if text_eq.beq v var then s.register else s.counters v;
}
step (call_line name var) s = record s { lines = s.lines ++ (name, s.register) ∷ [] }
step _ s = s

abbrev pub steps : List Op → Running → Running
steps [] s = s
steps (op ∷ ops) s = steps ops (step op s)

abbrev pub body_of : Text → List Function → List Op
body_of name [] = []
body_of name (f ∷ fs) = if text_eq.beq f.name name then f.body else body_of name fs

-- The functions are entered one after the other.
abbrev pub enter_all : List Function → List Text → Running → Running
enter_all fs [] s = s
enter_all fs (name ∷ trace) s = enter_all fs trace (steps (body_of name fs) s)

-- The counters as the globals initialise them.
abbrev pub initial : List (Text × Global) → Text → ℕ
initial globals var = elim (find var globals) [ some (number n) ↦ n | _ ↦ 0 ]

-- The calls of `printf` for the lines, with the name and the register that each gets, in a run of the
-- program that enters the functions `trace`, and then the destructors.
abbrev pub whole_run : Module → List Text → List (Text × ℕ)
whole_run m trace =
    let start : Running = record { counters = initial m.globals; register = 0; lines = [] } in
    (enter_all m.functions m.destructors (enter_all m.functions trace start)).lines

abbrev pub defined_names : List Function → List Text
defined_names [] = []
defined_names (f ∷ fs) = if f.is_declaration then defined_names fs else f.name ∷ defined_names fs
