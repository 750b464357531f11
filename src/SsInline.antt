-- ===== src/SsInline.antt =====
-- SsInline/SsInline.cpp: the direct calls in `main` are replaced by the instructions of the called
-- functions, one call after the other.
-- Functions are known by their addresses. A call of the caller itself is left out: its loop walks
-- the block that it inserts into.
pub mod Arguments
pub mod Body
pub mod Replaced
pub mod Caller
pub mod Ends
pub mod Whole
use llvm_study.Base.{
  ℕ, zero, suc, ◌+◌, Bool, true, false, ◌&&◌, ◌||◌, List, [], ◌∷◌, ◌++◌, map, Option, none, some,
  ◌==◌, if◌then◌else◌,
}
use llvm_study.Ir.{
  Value, const, local, block, global, undef, Kind, br, switch, other_terminator, Instr, operand,
}
use llvm_study.Containers.{Eq, address_eq, at, modify}
use llvm_study.Cfg.{value_eq}
use llvm_study.Counters.StaticCallCounter.{CallSites, direct_invoc}
use llvm_study.Mba.Block.{PreservedAnalyses, preserved}
use llvm_study.Duplicate.Clone.{remap_value, remap}

-- The numbers of the arguments and the blocks of a function; a declaration has no block.
pub record Callee : Type 0 where
  pub args : List ℕ
  pub blocks : List (List Instr)

-- `isTerminator`.
abbrev pub is_terminator : Kind → Bool
is_terminator br = true
is_terminator switch = true
is_terminator (other_terminator k) = true
is_terminator _ = false

-- The loop over the operands of a clone, for one argument.
abbrev pub replace_arg : ℕ → Value → List Value → List Value
replace_arg arg v [] = []
replace_arg arg v (x ∷ xs) = (if value_eq x (local arg) then v else x) ∷ replace_arg arg v xs

-- The loop over the arguments, from argument `i` on.
unfoldable pub replace_args : List ℕ → ℕ → Instr → List Value → List Value
unfolding value_eq
replace_args [] i call ops = ops
replace_args (arg ∷ args) i call ops =
    replace_args args (i + 1) call (replace_arg arg (operand call i) ops)

-- The clones that stand before the call, `RetVal` where it was assigned, and the first free number.
pub record Inlined : Type 0 where
  pub insts : List Instr
  pub ret_val : Option Value
  pub next : ℕ

-- The instruction's clone, once it is in `vmap`.
abbrev pub clone_inst : List ℕ → Instr → List (ℕ × ℕ) → ℕ → Instr → Instr
clone_inst args call vmap n inst =
    remap vmap (record inst { id = n; operands = replace_args args 0 call inst.operands })

-- The loop over the instructions of the called function. `getOperand(0)` of a terminator without
-- operands fails, which is `none`.
unfoldable pub inline_insts :
    List ℕ → Instr → List Instr → List (ℕ × ℕ) → Option Value → ℕ → Option Inlined
unfolding replace_args modify
inline_insts args call [] vmap ret n = some (record { insts = []; ret_val = ret; next = n })
inline_insts args call (inst ∷ insts) vmap ret n =
    let vmap' = modify n inst.id (λ _. n) vmap in
    let c = clone_inst args call vmap' n inst in
    elim (is_terminator inst.kind) [
      | true ↦ elim c.operands [
        | [] ↦ none
        | v ∷ _ ↦ inline_insts args call insts vmap' (some v) (n + 1)
      ]
      | false ↦ elim (inline_insts args call insts vmap' ret (n + 1)) [
        | none ↦ none
        | some r ↦ some (record r { insts = c ∷ r.insts })
      ]
    ]

abbrev pub all_insts : List (List Instr) → List Instr
all_insts [] = []
all_insts (b ∷ bs) = b ++ all_insts bs

-- `setOperand(i, RetVal)`, where `i` is the index of the first operand that is the call, and of the
-- last operand where none is.
abbrev pub set_use : ℕ → Value → List Value → List Value
set_use id v [] = []
set_use id v (x ∷ []) = v ∷ []
set_use id v (x ∷ (y ∷ ys)) =
    if value_eq x (local id) then v ∷ y ∷ ys else x ∷ set_use id v (y ∷ ys)

abbrev pub update_user : ℕ → ℕ → Value → List Instr → List Instr
update_user user id v [] = []
update_user user id v (x ∷ xs) =
    (if x.id == user then record x { operands = set_use id v x.operands } else x)
    ∷ update_user user id v xs

unfoldable pub update_users : List ℕ → ℕ → Value → List (List Instr) → List (List Instr)
unfolding value_eq
update_users [] id v bs = bs
update_users (u ∷ us) id v bs = update_users us id v (map (update_user u id v) bs)

-- A direct call in a block: what stands before it, the call, the function, what stands after it.
pub record Site : Type 0 where
  pub before : List Instr
  pub call : Instr
  pub callee : ℕ
  pub after : List Instr

-- What `inlineOnce` ends with: false, true with the new blocks and the first free number, or
-- undefined behaviour.
pub data Outcome : Type 0 where
  nothing undefined : Outcome
  inlined : List (List Instr) → ℕ → Outcome

-- `is_call` is the cast to `CallInst`. `users_met` lists the users that the loop over `call->users()`
-- meets for `RetVal`, from the blocks with the clones and the call. The loop moves each use that it
-- stands at from the call's list of uses to that of `RetVal`, and goes on there; so LLVM's lists decide
-- which users it meets.
module _ (sites : CallSites Instr ℕ) (is_call : Instr → Bool) (functions : ℕ → Callee)
    (users_met : List (List Instr) → ℕ → Option Value → List ℕ) where
  abbrev pub called : Instr → Option ℕ
  called inst = if is_call inst then direct_invoc sites inst else none

  unfoldable pub find_site : List Instr → Option Site
  find_site [] = none
  find_site (inst ∷ insts) = elim (called inst) [
    | some f ↦ some (record { before = []; call = inst; callee = f; after = insts })
    | none ↦ elim (find_site insts) [
      | none ↦ none
      | some s ↦ some (record s { before = inst ∷ s.before })
    ]
  ]

  -- The users get `RetVal`, which must have been assigned where there are any.
  unfoldable pub set_ret_val : List ℕ → ℕ → Option Value → List (List Instr) → ℕ → Outcome
  unfolding update_users
  set_ret_val [] id ret bs n = inlined bs n
  set_ret_val (u ∷ us) id none bs n = undefined
  set_ret_val (u ∷ us) id (some v) bs n = inlined (update_users (u ∷ us) id v bs) n

  -- Steps 1 to 4 for the call that was found, with the blocks before and after its block.
  unfoldable pub inline_site : List (List Instr) → Site → List (List Instr) → ℕ → Outcome
  unfolding inline_insts set_ret_val
  inline_site earlier s later n =
      let f = functions s.callee in
      elim (inline_insts f.args s.call (all_insts f.blocks) [] none n) [
        | none ↦ undefined
        | some r ↦
            set_ret_val
              (users_met (earlier ++ (s.before ++ (r.insts ++ s.call ∷ s.after)) ∷ later) s.call.id
                r.ret_val)
              s.call.id r.ret_val (earlier ++ (s.before ++ (r.insts ++ s.after)) ∷ later) r.next
      ]

  unfoldable pub inline_from : List (List Instr) → List (List Instr) → ℕ → Outcome
  unfolding find_site inline_site
  inline_from earlier [] n = nothing
  inline_from earlier (b ∷ later) n = elim (find_site b) [
    | none ↦ inline_from (earlier ++ b ∷ []) later n
    | some s ↦ inline_site earlier s later n
  ]

  unfoldable pub inline_once : List (List Instr) → ℕ → Outcome
  unfolding inline_from
  inline_once blocks n = inline_from [] blocks n

  -- What the loop `while (inlineOnce(*Caller))` ends with.
  pub data Ended : Type 0 where
    finished : List (List Instr) → Bool → Ended
    failed out_of_fuel : Ended

  unfoldable pub inline_all : ℕ → List (List Instr) → ℕ → Bool → Ended
  unfolding inline_once
  inline_all zero blocks n changed = out_of_fuel
  inline_all (suc fuel) blocks n changed = elim (inline_once blocks n) [
    | nothing ↦ finished blocks changed
    | undefined ↦ failed
    | inlined blocks' n' ↦ inline_all fuel blocks' n' true
  ]

  -- A function of the module: whether it is a declaration, whether its name is "main", its blocks.
  pub record Function : Type 0 where
    pub is_declaration : Bool
    pub is_main : Bool
    pub code : List (List Instr)

  -- The loops over the blocks and instructions of `main`; `called_function` is `getCalledFunction`.
  abbrev pub has_call : (Instr → Option ℕ) → List Instr → Bool
  has_call called_function [] = false
  has_call called_function (inst ∷ insts) =
      (is_call inst && (elim (called_function inst) [ none ↦ false | some f ↦ true ]))
      || has_call called_function insts

  -- The function that the loop assigns to `Caller`; where it assigns none, `Caller` is not set.
  abbrev pub find_caller : (Instr → Option ℕ) → List Function → Option Function → Option Function
  find_caller called_function [] caller = caller
  find_caller called_function (f ∷ fs) caller = find_caller called_function fs (
      if f.is_declaration
      then caller
      else (if f.is_main && has_call called_function (all_insts f.code) then some f else caller))

  unfoldable pub run_on_module : (Instr → Option ℕ) → ℕ → List Function → ℕ → Ended
  unfolding inline_all
  run_on_module called_function fuel funcs n = elim (find_caller called_function funcs none) [
    | none ↦ failed
    | some caller ↦ inline_all fuel caller.code n false
  ]

  -- The new pass manager's `run`: what is preserved, where `runOnModule` ends.
  unfoldable pub run : (Instr → Option ℕ) → ℕ → List Function → ℕ → Option PreservedAnalyses
  unfolding run_on_module
  run called_function fuel funcs n = elim (run_on_module called_function fuel funcs n) [
    | finished blocks changed ↦ some (preserved changed)
    | failed ↦ none
    | out_of_fuel ↦ none
  ]
