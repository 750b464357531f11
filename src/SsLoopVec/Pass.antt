-- ===== src/SsLoopVec/Pass.antt =====
-- `DoImpl` of SsLoopVec/SsLoopVec.cpp: the vectorisation of a loop, the loop over the loops, and what the
-- pass returns.
use llvm_study.Base.{ℕ, ◌+◌, Bool, true, false, List, [], ◌∷◌, Option, none, some}
use llvm_study.Mba.Block.{PreservedAnalyses, preserved}
use package.llvm_study.SsLoopVec.{
  Operand, Inst, Block, Func, Loop, Outcome, undefined, not_handled, vectorised, is_gep, find_block,
  set_insts, find_body, target0, scale_step, find_opcode, insert_after, cast_users, accumulate,
  drop_after, insert_front, alloca_zero, sum_up, final_pointer, insts_of,
}

-- `users` lists the users of an instruction, in the order of LLVM's use lists.
module _ (users : List Block → ℕ → List Inst) where
  -- The first GetElementPtr of the body with its casts, and what follows `LoadCast`; undefined where
  -- there is no GetElementPtr, or it has no load as a user. The number of the alloca is `tmp`.
  unfoldable pub vectorise_body : ℕ → ℕ → List Block → List Inst → Option (List Inst × ℕ)
  unfolding find_opcode cast_users drop_after
  vectorise_body tmp n bs insts = elim (find_opcode is_gep insts) [
    | none ↦ none
    | some gep ↦
        let c =
          cast_users gep.id (users bs gep.id)
            (record { inserted = []; load_cast = none; next = n }) in
        elim c.load_cast [
          | none ↦ none
          | some l ↦ some (
            drop_after (c.next + 2)
                (insert_after l (accumulate c.next l tmp) (insert_after gep.id c.inserted insts)),
            c.next + 3,
          )
        ]
  ]

  -- One round of the loop over the loops, its blocks found.
  unfoldable pub vectorise : Func → ℕ → ℕ → ℕ → ℕ → Outcome
  unfolding vectorise_body scale_step sum_up insert_front set_insts
  vectorise f body inc end n =
      let bs = set_insts inc (scale_step 0 (insts_of inc f.blocks)) f.blocks in
      elim (vectorise_body n (n + 2) bs (insts_of body bs)) [
        | none ↦ undefined
        | some (insts, k) ↦
            let bs1 = set_insts body insts bs in
            let bs2 = set_insts f.entry (insert_front (alloca_zero n) (insts_of f.entry bs1)) bs1 in
            elim (final_pointer (insts_of end bs2)) [
              | none ↦ undefined
              | some ptr ↦
                  vectorised
                    (record f {
                      blocks = set_insts end (insert_front (sum_up k n ptr) (insts_of end bs2)) bs2;
                    })
                    (k + 9)
            ]
      ]

  abbrev pub term_of : ℕ → List Block → List Operand
  term_of b bs = elim (find_block b bs) [ none ↦ [] | some x ↦ x.term ]

  -- The blocks of a loop. A missing body, step or exit block is used before it is tested; a missing
  -- condition ends the pass.
  unfoldable pub vectorise_loop : Func → Loop → ℕ → Outcome
  unfolding vectorise find_block
  vectorise_loop f l n = elim (find_body l.exit (term_of l.header f.blocks) none) [
    | none ↦ undefined
    | some body ↦ elim (target0 (term_of body f.blocks)) [
      | none ↦ undefined
      | some inc ↦ elim (target0 (term_of inc f.blocks)) [
        | none ↦ not_handled f
        | some cond ↦ elim l.exit [ none ↦ undefined | some end ↦ vectorise f body inc end n ]
      ]
    ]
  ]

  -- The loop over the loops, the last first; `none` is undefined behaviour.
  unfoldable pub vectorise_all : Func → List Loop → ℕ → Option (Func × Bool)
  unfolding vectorise_loop
  vectorise_all f [] n = some (f, true)
  vectorise_all f (l ∷ ls) n = elim (vectorise_loop f l n) [
    | undefined ↦ none
    | not_handled f' ↦ some (f', false)
    | vectorised f' n' ↦ vectorise_all f' ls n'
  ]

  -- `DoImpl`; `loops` is `getLoopsInPreorder` from its end. `pop_back_val` of no loop is undefined.
  unfoldable pub do_impl : Bool → Func → List Loop → ℕ → Option (Func × Bool)
  unfolding vectorise_all
  do_impl false f loops n = some (f, false)
  do_impl true f [] n = none
  do_impl true f (l ∷ ls) n = vectorise_all f (l ∷ ls) n

  -- What `run` returns, and the legacy pass's `runOnFunction`.
  unfoldable pub run : Bool → Func → List Loop → ℕ → Option (Func × PreservedAnalyses)
  unfolding do_impl preserved
  run is_foo f loops n = elim (do_impl is_foo f loops n) [
    | none ↦ none
    | some (f', changed) ↦ some (f', preserved changed)
  ]

  unfoldable pub legacy_run_on_function : Bool → Func → List Loop → ℕ → Option (Func × Bool)
  unfolding do_impl
  legacy_run_on_function is_foo f loops n = do_impl is_foo f loops n
