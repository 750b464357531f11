-- ===== src/Mba/Add/Run.antt =====
-- lib/MBAAdd.cpp over blocks and over a whole function.
use mathlib.Core.Bool.{false≢true}
use llvm_study.Base.{
  ℕ, ◌+◌, ◌≤◌, ◌≡◌, refl, ap, sym, true, false, List, [], ◌∷◌, All, arith, Bool-cases, inl, inr,
  if◌then◌else◌, zero, suc,
}
use llvm_study.Ir.{Instr}
use llvm_study.Ir.Exec.{Machine, State, exec, exec_all, exec_all-append, Agree, IsScoped}
use llvm_study.Ir.Frame.{All-InScope-weaken, exec-Agree, Agree-trans}
use llvm_study.Ir.Builder.{Builder, IsBuilder}
use llvm_study.Ratio.{Float, Ratio}
use llvm_study.Mba.Block.{preserve_all, preserved, keep_inst, replace_inst}
use llvm_study.Mba.Keeps.{KeepsBlocks, run_blocks-Keeps, run_blocks-unchanged}
use package.llvm_study.Mba.Add.{
  is_add8, replace_add, run_from, run_on_basic_block, run_on_function, run,
}
use package.llvm_study.Mba.Add.Laws.{placed_grows, replaced-Agree}

-- The instructions that the pass may substitute.
abbrev pub count_adds : List Instr → ℕ
count_adds [] = 0
count_adds (inst ∷ rest) =
    if is_add8 inst.kind inst.ty then suc (count_adds rest) else count_adds rest

module _ (f : Float) (ratio : Ratio f.Double) (draw : ℕ → f.Double) where
  -- How many of `c` draws from draw `i` on are not above the ratio.
  abbrev pub count_passes : ℕ → ℕ → ℕ
  count_passes i zero = 0
  count_passes i (suc c) =
      if f.lt ratio.value (draw i) then count_passes (i + 1) c else count_passes (i + 1) c + 1

  module _ (b : Builder) (i : ℕ) (inst : Instr) (rest : List Instr) (n : ℕ) where
    run-skip :
        is_add8 inst.kind inst.ty ≡ false
        → run_from f ratio draw b i (inst ∷ rest) n
          ≡ keep_inst inst (run_from f ratio draw b i rest n)
    unfolding run_from
    run-skip e = rw (e, run_from)

    run-drawn_out :
        is_add8 inst.kind inst.ty ≡ true
        → f.lt ratio.value (draw i) ≡ true
        → run_from f ratio draw b i (inst ∷ rest) n
          ≡ keep_inst inst (run_from f ratio draw b (i + 1) rest n)
    unfolding run_from
    run-drawn_out e d = rw (e, d, run_from)

    run-replace :
        is_add8 inst.kind inst.ty ≡ true
        → f.lt ratio.value (draw i) ≡ false
        → run_from f ratio draw b i (inst ∷ rest) n
          ≡ replace_inst
              (replace_add b inst n).placed
              (replace_add b inst n).new
              (run_from f ratio draw b (i + 1) rest (replace_add b inst n).next)
    unfolding run_from
    run-replace e d = rw (e, d, run_from)

  -- What a step of the loop does, for a proof by cases.
  data Case (b : Builder) (i : ℕ) (inst : Instr) (rest : List Instr) (n : ℕ) : Type 0 where
    kept :
        (j : ℕ)
        → run_from f ratio draw b i (inst ∷ rest) n
          ≡ keep_inst inst (run_from f ratio draw b j rest n)
        → Case b i inst rest n
    replaced :
        is_add8 inst.kind inst.ty ≡ true
        → run_from f ratio draw b i (inst ∷ rest) n
          ≡ replace_inst
              (replace_add b inst n).placed
              (replace_add b inst n).new
              (run_from f ratio draw b (i + 1) rest (replace_add b inst n).next)
        → Case b i inst rest n

  cases : (b : Builder) (i : ℕ) (inst : Instr) (rest : List Instr) (n : ℕ) → Case b i inst rest n
  cases b i inst rest n = elim (Bool-cases (is_add8 inst.kind inst.ty)) [
    | inr e ↦ kept i (run-skip b i inst rest n e)
    | inl e ↦ elim (Bool-cases (f.lt ratio.value (draw i))) [
      | inl d ↦ kept (i + 1) (run-drawn_out b i inst rest n e d)
      | inr d ↦ replaced e (run-replace b i inst rest n e d)
    ]
  ]

  subst_count-from :
      (b : Builder) (i : ℕ) (insts : List Instr) (n : ℕ)
      → (run_from f ratio draw b i insts n).subst_count ≡ count_passes i (count_adds insts)
  unfolding run_from
  subst_count-from b i [] n = refl
  subst_count-from b i (inst ∷ rest) n = elim (Bool-cases (is_add8 inst.kind inst.ty)) [
    | inr e ↦ rw (run-skip b i inst rest n e, e) (subst_count-from b i rest n)
    | inl e ↦ elim (Bool-cases (f.lt ratio.value (draw i))) [
      | inl d ↦ rw (run-drawn_out b i inst rest n e d, e, d) (subst_count-from b (i + 1) rest n)
      | inr d ↦
          rw (run-replace b i inst rest n e d, e, d)
            (ap (λ (c : ℕ). c + 1) (subst_count-from b (i + 1) rest (replace_add b inst n).next))
    ]
  ]

  -- `SubstCount` grows by the number of draws that are not above the ratio, where each 8-bit
  -- addition of the block makes one draw, the first draw first.
  pub mba_add-subst_count :
      (b : Builder) (insts : List Instr) (n : ℕ)
      → (run_on_basic_block f ratio draw b insts n).subst_count ≡ count_passes 0 (count_adds insts)
  unfolding run_on_basic_block
  mba_add-subst_count b insts n = subst_count-from b 0 insts n

  unchanged :
      (b : Builder) (i : ℕ) (insts : List Instr) (k : ℕ)
      → (run_from f ratio draw b i insts k).changed ≡ false
      → (run_from f ratio draw b i insts k).insts ≡ insts
  unfolding run_from
  unchanged b i [] k h = refl
  unchanged b i (inst ∷ rest) k h = elim (cases b i inst rest k) [
    | kept j e ↦ rw e (ap (λ r. inst ∷ r) (unchanged b j rest k (rw e at h)))
    | replaced _ e ↦ absurd (false≢true (sym (rw e at h)))
  ]

  -- Where `run` reports every analysis as preserved, the blocks are the ones it was given.
  pub mba_add-preserve_all :
      (b : Builder) (blocks : List (List Instr)) (n : ℕ)
      → run f ratio draw b blocks n ≡ preserve_all
      → (run_on_function f ratio draw b blocks n).blocks ≡ blocks
  unfolding run run_on_function preserved run_on_basic_block
  mba_add-preserve_all b blocks n h =
      run_blocks-unchanged (run_on_basic_block f ratio draw b) (unchanged b 0) blocks n
        (ground arith)

  module _ (m : Machine) (b : Builder) (laws : IsBuilder m b) where
    next_grows :
        (i : ℕ) (insts : List Instr) (n k : ℕ)
        → n ≤ k
        → All (IsScoped n) insts
        → k ≤ (run_from f ratio draw b i insts k).next
    unfolding run_from
    next_grows i [] n k le scoped = omega arith
    next_grows i (inst ∷ rest) n k le scoped = elim (cases b i inst rest k) [
      | kept j e ↦ rw e (next_grows j rest n k le scoped.1)
      | replaced _ e ↦
          let uses = All-InScope-weaken inst.operands le scoped.0.uses in
          let grown = placed_grows m b laws inst k uses in
          rw e (
            omega
              (arith, next_grows (i + 1) rest n (replace_add b inst k).next (omega arith) scoped.1))
    ]

    run_from-Agree :
        (i : ℕ) (insts : List Instr) (n k : ℕ) (s t : State m.Mem)
        → n ≤ k
        → All (IsScoped n) insts
        → Agree m n s t
        → Agree m n (exec_all m (run_from f ratio draw b i insts k).insts s) (exec_all m insts t)
    unfolding run_from exec_all
    run_from-Agree i [] n k s t le scoped agree = agree
    run_from-Agree i (inst ∷ rest) n k s t le scoped agree = elim (cases b i inst rest k) [
      | kept j e ↦ rw e (
          run_from-Agree j rest n k (exec m inst s) (exec m inst t) le scoped.1
            (exec-Agree m inst scoped.0 agree))
      | replaced found e ↦
          let r = replace_add b inst k in
          let uses = All-InScope-weaken inst.operands le scoped.0.uses in
          let grown = placed_grows m b laws inst k uses in
          rw
            (
              e,
              exec_all-append m r.placed
                  (r.new ∷ (run_from f ratio draw b (i + 1) rest r.next).insts) s,
            )
            (run_from-Agree (i + 1) rest n r.next (exec m r.new (exec_all m r.placed s))
              (exec m inst t) (omega arith) scoped.1
              (Agree-trans m (replaced-Agree m b laws inst n k s le found scoped.0)
                (exec-Agree m inst scoped.0 agree)))
    ]

    -- On a function whose instructions are numbered below `n`, with fresh numbers from `n` on, for
    -- every ratio, every sequence of draws and every effect of the instructions that are no integer
    -- arithmetic: the pass leaves as many blocks, and each new block takes states that agree on
    -- memory and on the values numbered below `n` to states that agree so.
    pub mba_add-Keeps :
        (blocks : List (List Instr)) (n : ℕ)
        → All (All (IsScoped n)) blocks
        → KeepsBlocks m n blocks (run_on_function f ratio draw b blocks n).blocks
    unfolding run_on_function run_on_basic_block
    mba_add-Keeps blocks n scoped =
        run_blocks-Keeps (run_on_basic_block f ratio draw b) m n
          (λ insts k le h.
            (next_grows 0 insts n k le h, λ s t agree. run_from-Agree 0 insts n k s t le h agree))
          blocks n (omega arith) scoped
