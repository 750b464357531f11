-- ===== src/SsInline/Whole.antt =====
-- `runOnModule` of SsInline/SsInline.cpp: what the choice of the caller and the loop end with.
use llvm_study.Base.{
  ℕ, ◌≤◌, ◌<◌, ◌≡◌, refl, sym, ap, ◌∙◌, Bool, true, false, ◌&&◌, List, [], ◌∷◌, Option, none, some,
  Option-cases, Bool-cases, inl, inr, if◌then◌else◌, arith,
}
use mathlib.Core.Path.{subst}
use mathlib.Core.Bool.{false≢true}
use llvm_study.Ir.{Value, Instr}
use llvm_study.Containers.{address_eq}
use llvm_study.Counters.StaticCallCounter.{CallSites}
use package.llvm_study.SsInline.Ends.{
  one_if, direct_in, count_calls, count_direct, Ends, direct_in-all_insts, one_more,
  inline_all-Ends,
}
use package.llvm_study.SsInline.{
  Callee, all_insts, called, Ended, finished, failed, out_of_fuel, inline_all, Function, has_call,
  find_caller, run_on_module,
}

module _ (sites : CallSites Instr ℕ) (is_call : Instr → Bool) (functions : ℕ → Callee)
    (users_met : List (List Instr) → ℕ → Option Value → List ℕ) where
  abbrev pub total_calls : List (List Instr) → ℕ
  total_calls = count_calls sites is_call functions users_met

  abbrev pub total_direct : List (List Instr) → ℕ
  total_direct = count_direct sites is_call functions users_met

  module _
      (stable : (x : Instr) (i : ℕ) (ops : List Value)
        → is_call (record x { id = i; operands = ops }) ≡ is_call x)
      (leaf : (f : ℕ) → total_calls (functions f).blocks ≡ 0) where
    module _ (called_function : Instr → Option ℕ)
        (agrees : (x : Instr) (f : ℕ)
          → is_call x ≡ true
          → called_function x ≡ some f
          → called sites is_call functions users_met x ≡ some f) where
      abbrev HasCall : Option (Function sites is_call functions users_met) → Type 0
      HasCall none = Unit
      HasCall (some f) =
          has_call sites is_call functions users_met called_function (all_insts f.code) ≡ true

      find_caller-HasCall :
          (fs : List (Function sites is_call functions users_met))
          (caller : Option (Function sites is_call functions users_met))
          → HasCall caller
          → HasCall (find_caller sites is_call functions users_met called_function fs caller)
      find_caller-HasCall [] caller h = h
      find_caller-HasCall (f ∷ fs) caller h = find_caller-HasCall fs _ (
          choose f.is_declaration f.is_main
            (has_call sites is_call functions users_met called_function (all_insts f.code)) refl)
        where
          choose :
              (d m c : Bool)
              → c ≡ has_call sites is_call functions users_met called_function (all_insts f.code)
              → HasCall (if d then caller else (if m && c then some f else caller))
          choose true m c e = h
          choose false false c e = h
          choose false true true e = sym e
          choose false true false e = h

      has_call-positive :
          (xs : List Instr)
          → has_call sites is_call functions users_met called_function xs ≡ true
          → 1 ≤ direct_in sites is_call functions users_met xs
      has_call-positive [] h = absurd (false≢true h)
      has_call-positive (x ∷ xs) h = elim (Bool-cases (is_call x)) [
        | inr e ↦ omega (arith, has_call-positive xs (rw e at h))
        | inl e ↦ elim (Option-cases (called_function x)) [
          | inl e' ↦ omega (arith, has_call-positive xs (rw (e, e') at h))
          | inr (f, e') ↦ omega (arith, ap one_if (agrees x f e e'))
        ]
      ]

      -- What the pass ends with: undefined behaviour, or no direct call, and it reports a change.
      abbrev pub IsInlined : Ended sites is_call functions users_met → Type 0
      IsInlined (finished bs changed) = (total_direct bs ≡ 0) × (changed ≡ true)
      IsInlined failed = Unit
      IsInlined out_of_fuel = ⊥

      -- Where an instruction's number and operands do not decide whether it is a call, no function of the
      -- table has a call of any kind, and `main` has a direct call, which is what `getCalledFunction`
      -- gives: with more fuel than `main` has calls, direct or not, the pass ends, and where no step is
      -- undefined it leaves no direct call and reports a change.
      pub run_on_module-IsInlined :
          (fuel n : ℕ) (funcs : List (Function sites is_call functions users_met))
          (caller : Function sites is_call functions users_met)
          → find_caller sites is_call functions users_met called_function funcs none ≡ some caller
          → total_calls caller.code < fuel
          → IsInlined (run_on_module sites is_call functions users_met called_function fuel funcs n)
      unfolding run_on_module
      run_on_module-IsInlined fuel n funcs caller found lt =
          let positive : 1 ≤ total_direct caller.code = omega (
            arith,
            direct_in-all_insts sites is_call functions users_met caller.code,
            has_call-positive (all_insts caller.code)
                (subst HasCall found (find_caller-HasCall funcs none tt)),
          ) in
          rw (IsInlined, found)
            (weaken (inline_all sites is_call functions users_met fuel caller.code n false) positive
              (inline_all-Ends sites is_call functions users_met stable leaf fuel caller.code n
                false lt))
        where
          weaken :
              (e : Ended sites is_call functions users_met)
              → 1 ≤ total_direct caller.code
              → Ends sites is_call functions users_met (total_direct caller.code) false e
              → IsInlined e
          weaken (finished bs changed) h ends = (
            ends.0,
            ends.1
                ∙ sym (
                    one_more sites is_call functions users_met stable leaf
                      (total_direct caller.code) false h),
          )
          weaken failed h ends = tt
          weaken out_of_fuel h ends = ends
