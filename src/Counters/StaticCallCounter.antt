-- ===== src/Counters/StaticCallCounter.antt =====
-- lib/StaticCallCounter.cpp: how often every function is called directly in a module.
-- Instructions, values and functions, the call site of an instruction, `stripPointerCasts` and
-- the cast to `Function` are LLVM's.
use llvm_study.Base.{
  ℕ, ◌+◌, ◌≡◌, refl, ap, ◌∙◌, List, [], ◌∷◌, ◌++◌, Option, none, some, Option-cases, inl, inr,
  if◌then◌else◌, arith,
}
use llvm_study.Containers.{Eq, find, modify, insert_all, keys}
use llvm_study.Containers.Laws.{beq_self, find-modify, at-eq-find, keys-modify}
use package.llvm_study.Counters.Tally.{u32, tally, occurrences}

-- `called_value` is none for an instruction that is no call site.
pub record CallSites (Inst Fn : Type 0) : Type 1 where
  pub Operand : Type 0
  pub called_value : Inst → Option Operand
  pub strip_pointer_casts : Operand → Operand
  pub as_function : Operand → Option Fn

module _ {Inst Fn : Type 0} ⦃e : Eq Fn⦄ (c : CallSites Inst Fn) where
  open c use {Operand, called_value, strip_pointer_casts, as_function}

  -- The function that an instruction calls directly.
  unfoldable pub direct_invoc : Inst → Option Fn
  direct_invoc inst = elim (called_value inst) [
    | none ↦ none
    | some callee ↦ as_function (strip_pointer_casts callee)
  ]

  -- `Res.find`, `Res.insert` where it found nothing, and `++CallCount->second`.
  pub count_call : Fn → List (Fn × ℕ) → List (Fn × ℕ)
  count_call f res =
      let res' : List (Fn × ℕ) = elim (find f res) [ none ↦ res ++ (f, 0) ∷ [] | some _ ↦ res ] in
      modify 0 f (λ n. u32 (n + 1)) res'

  pub count_inst : Inst → List (Fn × ℕ) → List (Fn × ℕ)
  unfolding direct_invoc count_call
  count_inst inst res = elim (direct_invoc inst) [ none ↦ res | some f ↦ count_call f res ]

  pub count_block : List Inst → List (Fn × ℕ) → List (Fn × ℕ)
  unfolding count_inst
  count_block [] res = res
  count_block (inst ∷ insts) res = count_block insts (count_inst inst res)

  pub count_function : List (List Inst) → List (Fn × ℕ) → List (Fn × ℕ)
  unfolding count_block
  count_function [] res = res
  count_function (block ∷ blocks) res = count_function blocks (count_block block res)

  pub count_module : List (List (List Inst)) → List (Fn × ℕ) → List (Fn × ℕ)
  unfolding count_function
  count_module [] res = res
  count_module (func ∷ funcs) res = count_module funcs (count_function func res)

  pub run_on_module : List (List (List Inst)) → List (Fn × ℕ)
  unfolding count_module
  run_on_module funcs = count_module funcs []

  -- The callees of the direct calls, in the order of the instructions.
  abbrev pub insts_callees : List Inst → List Fn
  insts_callees [] = []
  insts_callees (inst ∷ insts) = elim (direct_invoc inst) [
    | none ↦ insts_callees insts
    | some f ↦ f ∷ insts_callees insts
  ]

  abbrev pub function_callees : List (List Inst) → List Fn
  function_callees [] = []
  function_callees (block ∷ blocks) = insts_callees block ++ function_callees blocks

  abbrev pub module_callees : List (List (List Inst)) → List Fn
  module_callees [] = []
  module_callees (func ∷ funcs) = function_callees func ++ module_callees funcs

  -- The same calls, counted from a list of callees.
  count_callees : List Fn → List (Fn × ℕ) → List (Fn × ℕ)
  unfolding count_call
  count_callees [] res = res
  count_callees (f ∷ fs) res = count_callees fs (count_call f res)

  modify-entered :
      (f : Fn) (g : ℕ → ℕ) (res : List (Fn × ℕ))
      → find f res ≡ none
      → modify 0 f g (res ++ (f, 0) ∷ []) ≡ modify 0 f g res
  unfolding find modify
  modify-entered f g [] h = rw (beq_self f)
  modify-entered f g ((j, n) ∷ res) h = ground (arith, modify-entered f g res)

  count_call-eq-modify :
      (f : Fn) (res : List (Fn × ℕ)) → count_call f res ≡ modify 0 f (λ n. u32 (n + 1)) res
  unfolding count_call
  count_call-eq-modify f res = elim (Option-cases (find f res)) [
    | inl new ↦ rw (new, count_call) (modify-entered f (λ n. u32 (n + 1)) res new)
    | inr (n, old) ↦ rw (old, count_call)
  ]

  count_callees-append :
      (fs gs : List Fn) (res : List (Fn × ℕ))
      → count_callees (fs ++ gs) res ≡ count_callees gs (count_callees fs res)
  unfolding count_callees
  count_callees-append [] gs res = refl
  count_callees-append (f ∷ fs) gs res = count_callees-append fs gs (count_call f res)

  count_block-callees :
      (insts : List Inst) (res : List (Fn × ℕ))
      → count_block insts res ≡ count_callees (insts_callees insts) res
  unfolding count_block count_inst count_callees
  count_block-callees [] res = refl
  count_block-callees (inst ∷ insts) res = elim (Option-cases (direct_invoc inst)) [
    | inl skip ↦ rw (skip, count_inst, insts_callees) (count_block-callees insts res)
    | inr (f, call) ↦
        rw (call, count_inst, insts_callees) (count_block-callees insts (count_call f res))
  ]

  count_function-callees :
      (blocks : List (List Inst)) (res : List (Fn × ℕ))
      → count_function blocks res ≡ count_callees (function_callees blocks) res
  unfolding count_function count_callees
  count_function-callees [] res = refl
  count_function-callees (block ∷ blocks) res = simp (
    count_callees-append,
    count_block-callees,
    count_function-callees blocks (count_callees (insts_callees block) res),
  )

  count_module-callees :
      (funcs : List (List (List Inst))) (res : List (Fn × ℕ))
      → count_module funcs res ≡ count_callees (module_callees funcs) res
  unfolding count_module count_callees
  count_module-callees [] res = refl
  count_module-callees (func ∷ funcs) res = simp (
    count_callees-append,
    count_function-callees,
    count_module-callees funcs (count_callees (function_callees func) res),
  )

  count_call-tally :
      (f : Fn) (res : List (Fn × ℕ)) (seen : Fn → ℕ)
      → ((g : Fn) → find g res ≡ tally (seen g))
      → (g : Fn) → find g (count_call f res) ≡ tally (seen g + (if e.beq f g then 1 else 0))
  count_call-tally f res seen h g = ground (
    arith,
    ap (find g) (count_call-eq-modify f res),
    h f,
    h g,
    find-modify 0 f g (λ (n : ℕ). u32 (n + 1)) res,
    at-eq-find 0 f res,
    e.beq_iff f g,
  )

  count_callees-tally :
      (fs : List Fn) (res : List (Fn × ℕ)) (seen : Fn → ℕ)
      → ((g : Fn) → find g res ≡ tally (seen g))
      → (g : Fn) → find g (count_callees fs res) ≡ tally (seen g + occurrences g fs)
  unfolding count_callees
  count_callees-tally [] res seen h g = h g ∙ ap tally (omega arith)
  count_callees-tally (f ∷ fs) res seen h g =
      count_callees-tally fs (count_call f res) (λ k. seen k + (if e.beq f k then 1 else 0))
        (count_call-tally f res seen h) g
      ∙ ap tally (omega arith)

  keys-count_callees :
      (fs : List Fn) (res : List (Fn × ℕ)) → keys (count_callees fs res) ≡ insert_all fs (keys res)
  unfolding count_callees insert_all
  keys-count_callees [] res = refl
  keys-count_callees (f ∷ fs) res =
      keys-count_callees fs (count_call f res)
      ∙ ap (insert_all fs)
          (ap keys (count_call-eq-modify f res) ∙ keys-modify 0 f (λ n. u32 (n + 1)) res)

  -- A function that is nowhere called directly has no entry, and a function with `n` direct calls
  -- in the module has the entry `n`, as an `unsigned` of 32 bits; the entries stand in the order
  -- of the first direct calls.
  pub count_calls-tally :
      (funcs : List (List (List Inst))) (f : Fn)
      → (find f (run_on_module funcs) ≡ tally (occurrences f (module_callees funcs)))
        × (keys (run_on_module funcs) ≡ insert_all (module_callees funcs) [])
  unfolding run_on_module find
  count_calls-tally funcs f = (
    ap (find f) (count_module-callees funcs [])
        ∙ count_callees-tally (module_callees funcs) [] (λ _. 0) (λ g. refl) f
        ∙ ap tally (omega arith),
    ap keys (count_module-callees funcs []) ∙ keys-count_callees (module_callees funcs) [],
  )
