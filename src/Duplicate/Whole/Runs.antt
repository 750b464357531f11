-- ===== src/Duplicate/Whole/Runs.antt =====
-- `cloneBB` of lib/DuplicateBB.cpp: a duplicated block in its function, against the block.
use llvm_study.Base.{
  ℕ, ◌≤◌, ◌≡◌, ◌⊎◌, refl, ap, ◌∙◌, Bool, false, List, [], ◌∷◌, ◌++◌, Option, none, some, ◌==◌,
  length, All, arith, Bool-cases, inl, inr,
}
use mathlib.Core.Option.{none-ne-some}
use llvm_study.Ir.{Value, Instr}
use llvm_study.Ir.Builder.{Built}
use llvm_study.Ir.Exec.{Machine, State, exec_all, Agree, IsScoped}
use llvm_study.Ir.Frame.{All-InScope-weaken, Agree-refl, Agree-trans, Agree-weaken, exec_all-Agree}
use llvm_study.Cfg.{Block, goes, find_block}
use package.llvm_study.Duplicate.Clone.{Cloned, clone_bb}
use package.llvm_study.Duplicate.Clone.Joined.{IsTyped}
use package.llvm_study.Duplicate.Clone.Laws.{after_clone, clone_bb-Agree}
use package.llvm_study.Duplicate.Whole.{
  Duplicating, Split, phis_of, after_phis, set_insts, insts_of, context, place_clones, clone_bb_in,
}

-- What LLVM documents of SplitBlockAndInsertIfThenElse: the block keeps what stands before the split,
-- and ends in a branch on the condition to one of two new, empty blocks; both go to the tail, which has
-- the rest and the old terminator.
pub record IsSplit (b : ℕ) (before rest : List Instr) (term : Instr) (n : ℕ) (sp : Split)
    : Type 0 where
  pub head : Block
  pub found_head : find_block b sp.blocks ≡ some head
  pub keeps : head.insts ≡ before
  pub branches :
      (env : ℕ → ℕ)
      → (goes env head.term.kind head.term.operands ≡ some sp.then_block)
        ⊎ (goes env head.term.kind head.term.operands ≡ some sp.else_block)
  pub then_there : Block
  pub found_then : find_block sp.then_block sp.blocks ≡ some then_there
  pub empty_then : then_there.insts ≡ []
  pub then_on :
      (env : ℕ → ℕ) → goes env then_there.term.kind then_there.term.operands ≡ some sp.tail
  pub else_there : Block
  pub found_else : find_block sp.else_block sp.blocks ≡ some else_there
  pub empty_else : else_there.insts ≡ []
  pub else_on :
      (env : ℕ → ℕ) → goes env else_there.term.kind else_there.term.operands ≡ some sp.tail
  pub tail_there : Block
  pub found_tail : find_block sp.tail sp.blocks ≡ some tail_there
  pub has_rest : tail_there.insts ≡ rest
  pub has_term : tail_there.term ≡ term
  pub grows : n ≤ sp.next
  pub differ1 : (b == sp.then_block) ≡ false
  pub differ2 : (b == sp.else_block) ≡ false
  pub differ3 : (b == sp.tail) ≡ false
  pub differ4 : (sp.then_block == sp.else_block) ≡ false
  pub differ5 : (sp.then_block == sp.tail) ≡ false
  pub differ6 : (sp.else_block == sp.tail) ≡ false

find_block-set_same :
    (b : ℕ) (xs : List Instr) (bs : List Block) (x : Block)
    → find_block b bs ≡ some x
    → find_block b (set_insts b xs bs) ≡ some (record x { insts = xs })
unfolding find_block set_insts
find_block-set_same b xs [] x h = absurd (none-ne-some x h)
find_block-set_same b xs (z ∷ zs) x h = elim (Bool-cases (z.name == b)) [
  | inl q ↦
      rw (q, q)
        (ap (λ (o : Option Block). elim o [ none ↦ none | some y ↦ some (record y { insts = xs }) ])
          (rw q at h))
  | inr q ↦ rw (q, q) (find_block-set_same b xs zs x (rw q at h))
]

find_block-set_other :
    (b c : ℕ) (xs : List Instr) (bs : List Block)
    → (b == c) ≡ false
    → find_block b (set_insts c xs bs) ≡ find_block b bs
unfolding find_block set_insts
find_block-set_other b c xs [] ne = refl
find_block-set_other b c xs (z ∷ zs) ne = elim (Bool-cases (z.name == c)) [
  | inl q ↦
      let not_b : (z.name == b) ≡ false = ground (arith, ne, q) in
      rw (q, not_b) (find_block-set_other b c xs zs ne)
  | inr q ↦ elim (Bool-cases (z.name == b)) [
    | inl q' ↦ rw (q, q') refl
    | inr q' ↦ rw (q, q') (find_block-set_other b c xs zs ne)
  ]
]

-- The block `from` holds the clones `insts`, is where the head branches to, and goes on to the tail,
-- where the phis `phis` end as the instructions `rest` do.
pub record Takes (m : Machine) (n : ℕ) (sp : Split) (bs : List Block) (head : Block) (from : ℕ)
    (phis rest : List Instr) (s t : State m.Mem) : Type 0 where
  pub goes_there : goes s.env head.term.kind head.term.operands ≡ some from
  pub side : Block
  pub found : find_block from bs ≡ some side
  pub goes_on : (env : ℕ → ℕ) → goes env side.term.kind side.term.operands ≡ some sp.tail
  pub agree :
      Agree m n
        (after_clone sp.then_block sp.else_block m from side.insts phis s)
        (exec_all m rest t)

-- What the pass makes of the block.
pub record Runs (m : Machine) (n b : ℕ) (phis rest cond : List Instr) (term : Instr) (sp : Split)
    (bs : List Block) : Type 0 where
  pub head : Block
  pub found_head : find_block b bs ≡ some head
  pub begins : head.insts ≡ phis ++ cond
  pub tail : Block
  pub found_tail : find_block sp.tail bs ≡ some tail
  pub ends : tail.term ≡ term
  pub runs :
      (s t : State m.Mem)
      → Agree m n s t
      → Takes m n sp bs head sp.then_block tail.insts rest (exec_all m cond s) t
        ⊎ Takes m n sp bs head sp.else_block tail.insts rest (exec_all m cond s) t

All-IsScoped_weaken :
    (n k : ℕ) (xs : List Instr) → n ≤ k → All (IsScoped n) xs → All (IsScoped k) xs
All-IsScoped_weaken n k [] h a = tt
All-IsScoped_weaken n k (x ∷ xs) h a = (
  record { defines = omega (arith, a.0.defines); uses = All-InScope-weaken x.operands h a.0.uses },
  All-IsScoped_weaken n k xs h a.1,
)

module _ (m : Machine) (valued : ℕ → Bool) (b n : ℕ) (phis rest : List Instr) (cond : Built)
    (term : Instr) (sp : Split) (h : IsSplit b (phis ++ cond.insts) rest term cond.next sp)
    (grows : n ≤ cond.next) (keeps : (s : State m.Mem) → Agree m n (exec_all m cond.insts s) s)
    (scoped : All (IsScoped n) rest) (typed : All (IsTyped valued) rest) where
  tail_insts : insts_of sp.tail sp.blocks ≡ rest
  tail_insts =
      ap (λ (o : Option Block). elim o [ none ↦ [] | some x ↦ x.insts ]) h.found_tail ∙ h.has_rest

  empty_insts :
      (k : ℕ) (x : Block)
      → find_block k sp.blocks ≡ some x
      → x.insts ≡ []
      → insts_of k sp.blocks ≡ []
  empty_insts k x found empty =
      ap (λ (o : Option Block). elim o [ none ↦ [] | some y ↦ y.insts ]) found ∙ empty

  abbrev cloned : Cloned
  cloned = clone_bb sp.then_block sp.else_block rest sp.next

  blocks_head : find_block b (place_clones sp cloned) ≡ some h.head
  blocks_head =
      find_block-set_other b sp.tail _ _ h.differ3
      ∙ find_block-set_other b sp.else_block _ _ h.differ2
      ∙ find_block-set_other b sp.then_block _ _ h.differ1
      ∙ h.found_head

  blocks_tail :
      find_block sp.tail (place_clones sp cloned)
      ≡ some (record h.tail_there { insts = cloned.phis })
  blocks_tail = find_block-set_same sp.tail _ _ h.tail_there (
      find_block-set_other sp.tail sp.else_block _ _ (ground (arith, h.differ6))
      ∙ find_block-set_other sp.tail sp.then_block _ _ (ground (arith, h.differ5))
      ∙ h.found_tail)

  blocks_then :
      find_block sp.then_block (place_clones sp cloned)
      ≡ some (record h.then_there { insts = cloned.then_insts })
  blocks_then =
      find_block-set_other sp.then_block sp.tail _ _ h.differ5
      ∙ find_block-set_other sp.then_block sp.else_block _ _ h.differ4
      ∙ find_block-set_same sp.then_block _ _ h.then_there h.found_then
      ∙ ap (λ l. some (record h.then_there { insts = l ++ cloned.then_insts }))
          (empty_insts sp.then_block h.then_there h.found_then h.empty_then)

  blocks_else :
      find_block sp.else_block (place_clones sp cloned)
      ≡ some (record h.else_there { insts = cloned.else_insts })
  blocks_else =
      find_block-set_other sp.else_block sp.tail _ _ h.differ6
      ∙ find_block-set_same sp.else_block _ _ h.else_there (
          find_block-set_other sp.else_block sp.then_block _ _ (ground (arith, h.differ4))
          ∙ h.found_else)
      ∙ ap (λ l. some (record h.else_there { insts = l ++ cloned.else_insts }))
          (empty_insts sp.else_block h.else_there h.found_else h.empty_else)

  -- Both clones, from a state that agrees with the old block's.
  clones-Agree :
      (s t : State m.Mem)
      → Agree m n s t
      → Agree m n
          (after_clone sp.then_block sp.else_block m sp.then_block cloned.then_insts cloned.phis s)
          (exec_all m rest t)
        × Agree m n
            (after_clone sp.then_block sp.else_block m sp.else_block cloned.else_insts cloned.phis
              s)
            (exec_all m rest t)
  clones-Agree s t a =
      let le : n ≤ sp.next = omega (arith, grows, h.grows) in
      let both =
        clone_bb-Agree sp.then_block sp.else_block m sp.next valued rest s s
          (λ e. ground (arith, h.differ4, e)) (Agree-refl m sp.next s)
          (All-IsScoped_weaken n sp.next rest le scoped) typed in
      let same = exec_all-Agree m n rest s t scoped a in
      (Agree-trans m (Agree-weaken m le both.0) same, Agree-trans m (Agree-weaken m le both.1) same)

  pub place_clones-Runs :
      Runs m n b phis rest cond.insts term sp (
        place_clones sp (clone_bb sp.then_block sp.else_block (insts_of sp.tail sp.blocks) sp.next))
  place_clones-Runs =
      let made = λ (s t : State m.Mem) (a : Agree m n s t).
        clones-Agree (exec_all m cond.insts s) t (Agree-trans m (keeps s) a) in
      rw tail_insts (record {
        head = h.head;
        found_head = blocks_head;
        begins = h.keeps;
        tail = record h.tail_there { insts = cloned.phis };
        found_tail = blocks_tail;
        ends = h.has_term;
        runs = λ s t a. elim (h.branches (exec_all m cond.insts s).env) [
          | inl e ↦ inl (record {
            goes_there = e;
            side = record h.then_there { insts = cloned.then_insts };
            found = blocks_then;
            goes_on = h.then_on;
            agree = (made s t a).0;
          })
          | inr e ↦ inr (record {
            goes_there = e;
            side = record h.else_there { insts = cloned.else_insts };
            found = blocks_else;
            goes_on = h.else_on;
            agree = (made s t a).1;
          })
        ];
      })

module _ (m : Machine) (valued : ℕ → Bool) (create_is_null : Value → ℕ → Built)
    (split : List Block → ℕ → ℕ → Value → ℕ → Split) (b v : ℕ) (d : Duplicating)
    (term : Instr) where
  abbrev pub cond_of : Built
  cond_of = create_is_null (context d.re_mapper v) d.next

  abbrev pub split_of : Split
  split_of =
      let insts = insts_of b d.blocks in
      let before = phis_of insts ++ cond_of.insts in
      split (set_insts b (before ++ after_phis insts) d.blocks) b (length before) cond_of.value
        cond_of.next

  -- For a block whose instructions after the phis are numbered below the first free number and use no
  -- void instruction as an operand, and a condition that changes no value of the program: with what
  -- LLVM documents of the split, the block keeps its phis and gets the condition, control goes to one of
  -- the two clones, from there to the tail, and from states that agree, that leaves what the block's
  -- instructions leave; the tail ends in the block's terminator.
  pub clone_bb_in-Runs :
      IsSplit b
        (phis_of (insts_of b d.blocks) ++ cond_of.insts)
        (after_phis (insts_of b d.blocks))
        term
        cond_of.next
        split_of
      → d.next ≤ cond_of.next
      → ((s : State m.Mem) → Agree m d.next (exec_all m cond_of.insts s) s)
      → All (IsScoped d.next) (after_phis (insts_of b d.blocks))
      → All (IsTyped valued) (after_phis (insts_of b d.blocks))
      → Runs m d.next b
          (phis_of (insts_of b d.blocks))
          (after_phis (insts_of b d.blocks))
          cond_of.insts
          term
          split_of
          (clone_bb_in create_is_null split b v d).blocks
  unfolding clone_bb_in
  clone_bb_in-Runs h grows keeps scoped typed =
      place_clones-Runs m valued b d.next (phis_of (insts_of b d.blocks))
        (after_phis (insts_of b d.blocks)) cond_of term split_of h grows keeps scoped typed
