-- ===== src/Tests/Inlining.antt =====
-- SsInline/SsInline.cpp on a `main` that stores the double of 3, which a function computes.
use llvm_study.Base.{
  ℕ, zero, suc, ◌+◌, ◌%◌, ◌^◌, ◌≤◌, ◌≡◌, refl, ap, Bool, true, false, List, [], ◌∷◌, Option, none,
  some, get_or, ◌==◌, ltb, not, if◌then◌else◌, arith,
}
use llvm_study.Ir.{
  Value, const, local, int, void, Kind, binary, add, other, other_terminator, Instr, operand,
}
use llvm_study.Ir.Exec.{Machine, State, word_op, result, exec, exec_all}
use llvm_study.Containers.{address_eq, has, at}
use llvm_study.Cfg.{value_eq}
use llvm_study.Cfg.Uses.{count_operands, uses_in}
use llvm_study.Counters.StaticCallCounter.{CallSites, direct_invoc}
use mathlib.Core.Option.{some-injective}
use mathlib.Core.Path.{subst}
use llvm_study.SsInline.{
  all_insts, Inlined, inline_insts, Callee, Site, inlined, inline_site, called, Function,
  run_on_module,
}
use llvm_study.SsInline.Body.{entered, Inlines, inline_insts-Inlines}
use llvm_study.SsInline.Replaced.{AgreeBut}
use llvm_study.SsInline.Caller.{
  first_user, IsWalk, with_clones, OneUse, IsWalked, IsSite, inline_site-AgreeBut,
}
use llvm_study.SsInline.Whole.{total_calls, IsInlined, run_on_module-IsInlined}

-- Every instruction that is no arithmetic doubles its first operand.
abbrev doubling : Machine
doubling = record {
  Mem = ℕ;
  symbol = λ v. 0;
  effect =
      λ kind ty vals mem. ((get_or vals 0 0 % 2 ^ 32 + get_or vals 0 0 % 2 ^ 32) % 2 ^ 32, mem);
}

-- The callee's values are numbered from 100 on.
abbrev inside : ℕ → Bool
inside i = not (ltb i 100)

abbrev sum : Instr
sum = record { id = 101; kind = binary add; ty = int 32; operands = local 100 ∷ local 100 ∷ [] }

abbrev ret : Instr
ret = record { id = 102; kind = other_terminator 1; ty = void; operands = local 101 ∷ [] }

abbrev store : Instr
store = record { id = 11; kind = other 1; ty = void; operands = local 10 ∷ [] }

abbrev call : Instr
call = record { id = 10; kind = other 7; ty = int 32; operands = const 32 3 ∷ [] }

abbrev double : Callee
double = record { args = 100 ∷ []; blocks = (sum ∷ ret ∷ []) ∷ [] }

abbrev calls_double : Kind → Bool
calls_double (other k) = k == 7
calls_double _ = false

abbrev sites : CallSites Instr ℕ
sites = record {
  Operand = ℕ;
  called_value = λ inst. if calls_double inst.kind then some 5 else none;
  strip_pointer_casts = λ v. v;
  as_function = λ v. some v;
}

abbrev is_call : Instr → Bool
is_call inst = calls_double inst.kind

abbrev functions : ℕ → Callee
functions f = double

-- The first user.
abbrev met : List (List Instr) → ℕ → Option Value → List ℕ
met blocks id returned = elim (first_user id (all_insts blocks)) [ none ↦ [] | some u ↦ u ∷ [] ]

met-IsWalk : IsWalk met
met-IsWalk bs id u i one by unused =
    ap (λ (o : Option ℕ). elim o as (λ _. List ℕ) [ none ↦ [] | some v ↦ v ∷ [] ]) by

abbrev site : Site
site = record { before = []; call = call; callee = 5; after = store ∷ [] }

abbrev start : State ℕ
start = record { env = λ i. 0; mem = 0 }

inline_insts-Inlines_example :
    Inlines doubling inside 20
      (100 ∷ [])
      call
      (refl, tt)
      ((tt, tt), tt)
      start
      (sum ∷ [])
      ret
      []
      none
      20
      start
      (entered doubling (100 ∷ []) call start)
unfolding has
inline_insts-Inlines_example =
    inline_insts-Inlines doubling inside 20 (100 ∷ []) call (sum ∷ []) ret start (refl, tt)
      ((tt, tt), tt) (refl, refl, refl, refl, (refl, (refl, tt)), (refl, refl, refl, refl))

operand-const : (j : ℕ) → value_eq (operand call j) (local 11) ≡ false
unfolding value_eq
operand-const zero = refl
operand-const (suc j) = refl

site-IsSite : IsSite doubling inside 20 11 double (sum ∷ []) ret site
unfolding count_operands value_eq result word_op exec exec_all has
site-IsSite = record {
  arguments = (refl, tt);
  code = refl;
  body = (refl, refl, refl, refl, (refl, (refl, tt)), (refl, refl, refl, refl));
  caller = ((tt, tt), tt);
  scoped = record { defines = omega arith; uses = (tt, tt) };
  valued = refl;
  used = omega arith;
  scoped_before = tt;
  no_use_before = tt;
  only_use = (refl, tt);
  after = ((record { defines = omega arith; uses = (omega arith, tt) }, refl, operand-const), tt);
  calls = λ s. refl;
}

-- What is made of the call: the sum, with a number of its own.
abbrev made : Inlined
made = record {
  insts =
      record { id = 20; kind = binary add; ty = int 32; operands = const 32 3 ∷ const 32 3 ∷ [] }
      ∷ [];
  ret_val = some (local 20);
  next = 22;
}

site-IsWalked : IsWalked 11 double 20 [] [] site
unfolding inline_insts value_eq count_operands uses_in at
site-IsWalked r e =
    subst (λ (l : Inlined). OneUse 11 site l (with_clones [] [] site l)) (some-injective made r e)
      (record { value = 20; returned = refl; one_use = refl; by = refl; unused = refl })

inline_site-AgreeBut_example :
    (w : Value) × (block : List Instr) × (next : ℕ) × (inline_site sites is_call functions met []
        site [] 20
      ≡ inlined (block ∷ []) next)
    × (20 ≤ next)
    × AgreeBut doubling 20 10 w
        (exec_all doubling block start)
        (exec_all doubling (call ∷ store ∷ []) start)
inline_site-AgreeBut_example =
    inline_site-AgreeBut doubling inside 20 11 double (sum ∷ []) ret site site-IsSite sites is_call
      functions met [] [] start start refl met-IsWalk site-IsWalked
      (record { same_mem = refl; same_env = λ i h. refl })

abbrev main : Function sites is_call functions met
main = record { is_declaration = false; is_main = true; code = (call ∷ store ∷ []) ∷ [] }

abbrev called_function : Instr → Option ℕ
called_function inst = some 5

is_call-called :
    (x : Instr) (f : ℕ)
    → is_call x ≡ true
    → called_function x ≡ some f
    → called sites is_call functions met x ≡ some f
unfolding direct_invoc
is_call-called x f h e = rw (h, direct_invoc) e

is_call-stable :
    (x : Instr) (i : ℕ) (ops : List Value)
    → is_call (record x { id = i; operands = ops }) ≡ is_call x
is_call-stable x i ops = refl

no_calls : (f : ℕ) → total_calls sites is_call functions met (functions f).blocks ≡ 0
no_calls f = refl

run_on_module-IsInlined_example :
    IsInlined sites is_call functions met is_call-stable no_calls called_function is_call-called
      (run_on_module sites is_call functions met called_function 2 (main ∷ []) 20)
unfolding direct_invoc
run_on_module-IsInlined_example =
    run_on_module-IsInlined sites is_call functions met is_call-stable no_calls called_function
      is_call-called 2 20 (main ∷ []) main refl (omega arith)
