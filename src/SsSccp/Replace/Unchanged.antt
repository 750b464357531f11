-- ===== src/SsSccp/Replace/Unchanged.antt =====
-- The first loop of `DoSCCP` of SsSCCP/SsSCCP.cpp: what it reports against what it does.
use llvm_study.Base.{
  ℕ, ◌≡◌, refl, sym, ap, ap₂, ◌∙◌, fun_ext, Bool, true, false, List, [], ◌∷◌, none, ◌==◌, ==_iff,
  map, Bool-cases, Option-cases, inl, inr, arith,
}
use mathlib.Core.Bool.{false≢true}
use llvm_study.Ir.{Value, const, local, block, global, undef, Instr}
use llvm_study.Containers.{address_eq, find, modify}
use llvm_study.Riv.{DomTrees}
use package.llvm_study.SsSccp.{
  AllocaInfo, AllocaMap, gather_alloca, Node, descendants, search_dfs, Blocks,
}
use package.llvm_study.SsSccp.Yields.{
  IsHonest, Yields, Yields-always, and_then-Yields, each_at-Yields, walk-Yields,
}
use package.llvm_study.SsSccp.Replace.{
  set_block, replace_block, replace_dfs, propagate_below, propagate, last_entry, Replacing,
  replace_operand, replace_insts, is_empty, keep_others,
}

IsEmpty-nil : (m : AllocaMap) → is_empty m ≡ true → m ≡ []
IsEmpty-nil [] h = refl
IsEmpty-nil (e ∷ m) h = absurd (false≢true h)

IsEmpty-modify : (i : AllocaInfo) (k : ℕ) (m : AllocaMap) → is_empty (modify i k (λ _. i) m) ≡ false
unfolding modify
IsEmpty-modify i k [] = refl
IsEmpty-modify i k ((j, v) ∷ m) = elim (Bool-cases (j == k)) [
  | inl e ↦ rw e refl
  | inr e ↦ rw e refl
]

module _ (is_inst : ℕ → Bool) (constant_of : ℕ → ℕ → Value) where
  replace_operand-nil : (vs : List Value) → map (replace_operand is_inst constant_of []) vs ≡ vs
  unfolding find
  replace_operand-nil [] = refl
  replace_operand-nil (const w n ∷ vs) = ap (λ l. const w n ∷ l) (replace_operand-nil vs)
  replace_operand-nil (local i ∷ vs) = ap (λ l. local i ∷ l) (replace_operand-nil vs)
  replace_operand-nil (block b ∷ vs) = ap (λ l. block b ∷ l) (replace_operand-nil vs)
  replace_operand-nil (global g ∷ vs) = ap (λ l. global g ∷ l) (replace_operand-nil vs)
  replace_operand-nil (undef ∷ vs) = ap (λ l. undef ∷ l) (replace_operand-nil vs)

  -- What was entered stays entered.
  replace_insts-grows :
      (am : AllocaMap) (xs : List Instr) (rm : AllocaMap)
      → is_empty rm ≡ false
      → is_empty (replace_insts is_inst constant_of am xs rm).1 ≡ false
  unfolding replace_insts
  replace_insts-grows am [] rm h = h
  replace_insts-grows am (x ∷ xs) rm h = elim (Option-cases (last_entry am x.operands none)) [
    | inl e ↦ rw (e, replace_insts) (replace_insts-grows am xs rm h)
    | inr (i, e) ↦
        rw (e, replace_insts)
          (replace_insts-grows am xs (modify i x.id (λ _. i) rm) (IsEmpty-modify i x.id rm))
  ]

  -- Where nothing is entered, nothing is replaced.
  replace_insts-same :
      (am : AllocaMap) (xs : List Instr)
      → is_empty (replace_insts is_inst constant_of am xs []).1 ≡ true
      → (replace_insts is_inst constant_of am xs []).0 ≡ xs
  unfolding replace_insts
  replace_insts-same am [] h = refl
  replace_insts-same am (x ∷ xs) h = elim (Option-cases (last_entry am x.operands none)) [
    | inl e ↦
        rw (e, replace_insts)
          (ap₂ (λ ops (l : List Instr). record x { operands = ops } ∷ l)
            (replace_operand-nil x.operands)
            (replace_insts-same am xs (rw (e, replace_insts) at h)))
    | inr (i, e) ↦ absurd (
        false≢true (
          sym (replace_insts-grows am xs (modify i x.id (λ _. i) []) (IsEmpty-modify i x.id []))
          ∙ (rw (e, replace_insts) at h)))
  ]

  replace_insts-idle :
      (am : AllocaMap) (xs : List Instr) (rm : AllocaMap)
      → is_empty (replace_insts is_inst constant_of am xs rm).1 ≡ true
      → (is_empty rm ≡ true) × ((replace_insts is_inst constant_of am xs rm).0 ≡ xs)
  replace_insts-idle am xs [] h = (refl, replace_insts-same am xs h)
  replace_insts-idle am xs (e ∷ rm) h =
      absurd (false≢true (sym (replace_insts-grows am xs (e ∷ rm) refl) ∙ h))

  set_block-same : (b : ℕ) (blocks : Blocks) → set_block b (blocks b) blocks ≡ blocks
  set_block-same b blocks = fun_ext (λ c. elim (Bool-cases (c == b)) [
    | inl e ↦ rw e (ap (λ (i : ℕ). blocks i) (sym ((==_iff c b).0 e)))
    | inr e ↦ rw e refl
  ])

  keep_others-nil : (xs : List Instr) → keep_others [] xs ≡ xs
  unfolding find
  keep_others-nil [] = refl
  keep_others-nil (x ∷ xs) = ap (λ l. x ∷ l) (keep_others-nil xs)

  -- The blocks are still these where nothing is entered.
  abbrev IsIdle : Blocks → Replacing → Type 0
  IsIdle blocks st = is_empty st.replace_map ≡ true → st.blocks ≡ blocks

  replace_dfs-Yields :
      (am : AllocaMap) (fuel : ℕ) (n : Node) (level : ℕ) (blocks : Blocks) (st : Replacing)
      → IsIdle blocks st
      → Yields (IsIdle blocks) (replace_dfs is_inst constant_of am fuel n level st)
  unfolding replace_dfs
  replace_dfs-Yields am fuel n level blocks st h =
      walk-Yields (IsIdle blocks) (replace_block is_inst constant_of am) fuel n level st
        (λ b r g empty.
          let idle = replace_insts-idle am (r.blocks b) r.replace_map empty in
          ap (λ xs. set_block b xs r.blocks) idle.1 ∙ set_block-same b r.blocks ∙ g idle.0)
        h

  propagate_below-Yields :
      (fuel : ℕ) (am : AllocaMap) (n : Node) (before : Blocks) (s : Blocks × Bool)
      → IsHonest before s
      → Yields (IsHonest before) (propagate_below is_inst constant_of fuel am n s)
  unfolding propagate_below
  propagate_below-Yields fuel am n before (blocks, changed) h =
      and_then-Yields (λ m. Unit) (IsHonest before) (search_dfs is_inst blocks fuel n 1 am) _
        (Yields-always (λ m. Unit) (search_dfs is_inst blocks fuel n 1 am) (λ m. tt))
        (λ local_map u.
          and_then-Yields (IsIdle blocks) (IsHonest before)
            (replace_dfs is_inst constant_of local_map fuel n 1
              (record { blocks = blocks; replace_map = [] }))
            _
            (replace_dfs-Yields local_map fuel n 1 blocks
              (record { blocks = blocks; replace_map = [] }) (λ empty. refl))
            (λ r idle e.
              let empty : is_empty r.replace_map ≡ true = ground arith in
              ap (λ rm b. keep_others rm (r.blocks b)) (IsEmpty-nil r.replace_map empty)
              ∙ fun_ext (λ b. keep_others-nil (r.blocks b))
              ∙ idle empty
              ∙ h (ground arith)))

  pub propagate-Yields :
      (users : ℕ → List Instr) (fuel entry : ℕ) (below : DomTrees) (blocks : Blocks)
      → Yields (IsHonest blocks) (propagate is_inst constant_of users fuel entry below blocks)
  unfolding propagate
  propagate-Yields users fuel entry below blocks =
      let am = gather_alloca users entry (blocks entry) [] in
      each_at-Yields (IsHonest blocks) 1 (propagate_below is_inst constant_of fuel am)
        (descendants (record { block = entry; level = 0; below = below })) (blocks, false)
        (λ n s h. propagate_below-Yields fuel am n blocks s h) (λ e. refl)
