-- ===== src/Instrument/DynamicCallCounter/Runtime/Bodies.antt =====
-- Which body a name has in the module that lib/DynamicCallCounter.cpp leaves.
use llvm_study.Base.{
  ◌≡◌, refl, ap, true, false, List, [], ◌∷◌, ◌++◌, arith, Bool-cases, inl, inr, All,
}
use mathlib.Core.Bool.{false≢true}
use llvm_study.Containers.{has}
use llvm_study.Containers.Laws.{beq_self}
use llvm_study.Instrument.{Text, text_eq, Op, Function}
use llvm_study.Instrument.InjectFuncCall.{has_function, get_or_insert_function}
use package.llvm_study.Instrument.DynamicCallCounter.{Names, count_calls, define_wrapper}
use package.llvm_study.Instrument.DynamicCallCounter.Runtime.{body_of, defined_names}
use package.llvm_study.Instrument.DynamicCallCounter.Runtime.Counts.{instrumented, AllOriginal}

-- No two functions of the module have one name.
abbrev pub AllDistinct : List Function → Type 0
AllDistinct [] = Unit
AllDistinct (f ∷ fs) = (has_function f.name fs ≡ false) × AllDistinct fs

pub has_function-instrumented :
    (c : Names) (name : Text) (fs : List Function)
    → has_function name (instrumented c fs) ≡ has_function name fs
unfolding count_calls
has_function-instrumented c name [] = refl
has_function-instrumented c name (f ∷ fs) = ground (arith, has_function-instrumented c name fs)

pub has_function-defined :
    (name : Text) (fs : List Function)
    → has name (defined_names fs) ≡ true
    → has_function name fs ≡ true
unfolding has
has_function-defined name [] h = absurd (false≢true h)
has_function-defined name (f ∷ fs) h = ground (arith, has_function-defined name fs)

-- A body that counts the calls of `name`.
pub record Counting (c : Names) (name : Text) (ops : List Op) : Type 0 where
  pub source : Function
  pub named : source.name ≡ name
  pub plain : AllOriginal source.body
  pub body : ops ≡ (count_calls c source).body

pub body_of-instrumented :
    (c : Names) (name : Text) (fs : List Function)
    → AllDistinct fs
    → All (λ (f : Function). AllOriginal f.body) fs
    → has name (defined_names fs) ≡ true
    → Counting c name (body_of name (instrumented c fs))
unfolding has count_calls
body_of-instrumented c name [] distinct plain h = absurd (false≢true h)
body_of-instrumented c name (f ∷ fs) distinct plain h = elim (Bool-cases f.is_declaration) [
  | inl e ↦
      let deeper : has name (defined_names fs) ≡ true = rw e at h in
      let r = body_of-instrumented c name fs distinct.1 plain.1 deeper in
      let other : text_eq.beq f.name name ≡ false = ground (
        arith,
        distinct.0,
        has_function-defined name fs deeper,
        ap (λ n. has_function n fs) ((text_eq.beq_iff f.name name).0 _),
      ) in
      record { source = r.source; named = r.named; plain = r.plain; body = simp (e, other) r.body }
  | inr e ↦ elim (Bool-cases (text_eq.beq f.name name)) [
    | inl same ↦ record {
      source = f;
      named = (text_eq.beq_iff f.name name).0 same;
      plain = plain.0;
      body = simp (e, same) refl;
    }
    | inr other ↦
        let r = body_of-instrumented c name fs distinct.1 plain.1 (rw (e, other) at h) in
        record {
          source = r.source;
          named = r.named;
          plain = r.plain;
          body = simp (e, other) r.body;
        }
  ]
]

abbrev declared : Text → Function
declared name = record { name = name; is_declaration = true; arg_size = 1; body = [] }

has_function-more :
    (name : Text) (fs gs : List Function)
    → has_function name fs ≡ true
    → has_function name (fs ++ gs) ≡ true
has_function-more name [] gs h = absurd (false≢true h)
has_function-more name (f ∷ fs) gs h = ground (arith, has_function-more name fs gs)

body_of-declared :
    (printf name : Text) (fs : List Function)
    → has_function name fs ≡ true
    → body_of name (fs ++ declared printf ∷ []) ≡ body_of name fs
body_of-declared printf name [] h = absurd (false≢true h)
body_of-declared printf name (f ∷ fs) h = ground (arith, body_of-declared printf name fs)

has_function-declared :
    (printf name : Text) (fs : List Function)
    → text_eq.beq printf name ≡ false
    → has_function name (fs ++ declared printf ∷ []) ≡ has_function name fs
has_function-declared printf name [] h = ground arith
has_function-declared printf name (f ∷ fs) h =
    ground (arith, has_function-declared printf name fs h)

pub body_of-get_or_insert :
    (printf name : Text) (fs : List Function)
    → has_function name fs ≡ true
    → body_of name (get_or_insert_function printf fs) ≡ body_of name fs
unfolding get_or_insert_function
body_of-get_or_insert printf name fs h = ground (arith, body_of-declared printf name fs h)

pub has_function-get_or_insert :
    (printf name : Text) (fs : List Function)
    → text_eq.beq printf name ≡ false
    → has_function name (get_or_insert_function printf fs) ≡ has_function name fs
unfolding get_or_insert_function
has_function-get_or_insert printf name fs h = ground (arith, has_function-declared printf name fs h)

pub body_of-wrapper :
    (wrapper : Text) (ops : List Op) (fs : List Function)
    → has_function wrapper fs ≡ false
    → body_of wrapper (define_wrapper wrapper ops fs) ≡ ops
unfolding define_wrapper
body_of-wrapper wrapper ops [] h = ground (arith, beq_self wrapper)
body_of-wrapper wrapper ops (f ∷ fs) h = ground (arith, body_of-wrapper wrapper ops fs)

pub body_of-beside_wrapper :
    (wrapper name : Text) (ops : List Op) (fs : List Function)
    → has_function wrapper fs ≡ false
    → has_function name fs ≡ true
    → body_of name (define_wrapper wrapper ops fs) ≡ body_of name fs
unfolding define_wrapper
body_of-beside_wrapper wrapper name ops [] h k = absurd (false≢true k)
body_of-beside_wrapper wrapper name ops (f ∷ fs) h k =
    ground (arith, body_of-beside_wrapper wrapper name ops fs)

pub has_function-kept :
    (printf name : Text) (fs : List Function)
    → has_function name fs ≡ true
    → has_function name (get_or_insert_function printf fs) ≡ true
unfolding get_or_insert_function
has_function-kept printf name fs h =
    ground (arith, has_function-more name fs (declared printf ∷ []) h)
