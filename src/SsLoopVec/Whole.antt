-- ===== src/SsLoopVec/Whole.antt =====
-- A round of `DoImpl` on a loop that sums up an array: the blocks it makes, and the sum they store.
use llvm_study.Base.{
  ℕ, ◌+◌, ◌*◌, ◌%◌, ◌^◌, ◌<◌, ◌≡◌, ap, ◌∙◌, Bool, false, List, ◌∷◌, ◌++◌, Option, none, some, ◌==◌,
  arith,
}
use package.llvm_study.SsLoopVec.{
  Operand, value, Inst, Block, Func, set_insts, insts_of, scale_step, insert_front, alloca_zero,
  final_pointer, sum_up, Outcome, vectorised, undefined,
}
use package.llvm_study.SsLoopVec.Pass.{vectorise_body, vectorise}
use package.llvm_study.SsLoopVec.Exec.{Machine, State, in_range, exec_all}
use package.llvm_study.SsLoopVec.Sum.{round, total}
use package.llvm_study.SsLoopVec.Counted.{rounds}
use package.llvm_study.SsLoopVec.Looping.{IsCounted, lanes-rounds}
use package.llvm_study.SsLoopVec.Body.{IsSummingBody, vectorise_body-round}
use package.llvm_study.SsLoopVec.Rounds.{
  IsThere, insts_of-set_same, insts_of-set_other, IsThere-set, lanes-total,
}

-- The blocks of a loop that sums up an array, in a function whose instructions are numbered below `n`:
-- they are there and differ, and the exit block loads through `p`.
pub record IsSummingLoop (users : List Block → ℕ → List Inst) (f : Func) (body inc end n : ℕ)
    (before rest : List Inst) (gep user : Inst) (p : ℕ) : Type 0 where
  pub there_body : IsThere body f.blocks
  pub there_inc : IsThere inc f.blocks
  pub there_end : IsThere end f.blocks
  pub there_entry : IsThere f.entry f.blocks
  pub body_inc : (body == inc) ≡ false
  pub end_inc : (end == inc) ≡ false
  pub end_body : (end == body) ≡ false
  pub entry_inc : (f.entry == inc) ≡ false
  pub entry_body : (f.entry == body) ≡ false
  pub entry_end : (f.entry == end) ≡ false
  pub code : insts_of body f.blocks ≡ before ++ gep ∷ rest
  pub summing :
      IsSummingBody users
        (n + 2)
        (set_insts inc (scale_step 0 (insts_of inc f.blocks)) f.blocks)
        before
        gep
        user
  pub small_gep : gep.id < n
  pub loads : final_pointer (insts_of end f.blocks) ≡ some (value p)
  pub small_p : p < n

-- The header is another block than those that the pass changes.
pub record IsHeader (head entry body inc end : ℕ) : Type 0 where
  pub head_inc : (head == inc) ≡ false
  pub head_body : (head == body) ≡ false
  pub head_entry : (head == entry) ≡ false
  pub head_end : (head == end) ≡ false

-- The blocks that the pass makes, and what a run of them adds up, which enters the function in the
-- state `s`, and goes `k` times through the loop.
pub record Sums (m : Machine) (f : Func) (head body inc end n : ℕ) (before : List Inst) (gep : Inst)
    (p base k : ℕ) (s : State) (o : Outcome) : Type 0 where
  pub left : Func
  pub makes : o ≡ vectorised left (n + 2 + 2 + 3 + 9)
  pub new_body : insts_of body left.blocks ≡ before ++ gep ∷ round (n + 2) gep.id n
  pub new_inc : insts_of inc left.blocks ≡ scale_step 0 (insts_of inc f.blocks)
  pub new_entry :
      insts_of f.entry left.blocks ≡ insert_front (alloca_zero n) (insts_of f.entry f.blocks)
  pub new_end :
      insts_of end left.blocks
      ≡ insert_front (sum_up (n + 2 + 2 + 3) n (value p)) (insts_of end f.blocks)
  pub adds_up :
      let block = λ (b : ℕ). insts_of b left.blocks in
      let start = exec_all m (block f.entry) s in
      let last = exec_all m (block head) (rounds m (block head) (block body) (block inc) k start) in
      (exec_all m (sum_up (n + 2 + 2 + 3) n (value p)) last).mem (last.env p 0)
      ≡ total (λ i. start.mem (base + i)) (4 * k) % 2 ^ 32

module _ (users : List Block → ℕ → List Inst) (f : Func) (body inc end n : ℕ)
    (before rest : List Inst) (gep user : Inst) (p : ℕ)
    (h : IsSummingLoop users f body inc end n before rest gep user p) where
  abbrev scaled : List Block
  scaled = set_insts inc (scale_step 0 (insts_of inc f.blocks)) f.blocks

  abbrev with_body : List Block
  with_body = set_insts body (before ++ gep ∷ round (n + 2) gep.id n) scaled

  abbrev with_entry : List Block
  with_entry =
      set_insts f.entry (insert_front (alloca_zero n) (insts_of f.entry with_body)) with_body

  abbrev with_end : List Block
  with_end =
      set_insts end (insert_front (sum_up (n + 2 + 2 + 3) n (value p)) (insts_of end with_entry))
        with_entry

  end_before : insts_of end with_entry ≡ insts_of end f.blocks
  end_before =
      insts_of-set_other end f.entry _ with_body (ground (arith, h.entry_end))
      ∙ insts_of-set_other end body _ scaled h.end_body
      ∙ insts_of-set_other end inc _ f.blocks h.end_inc

  body_before : insts_of body scaled ≡ before ++ gep ∷ rest
  body_before = insts_of-set_other body inc _ f.blocks h.body_inc ∙ h.code

  vectorise-made :
      vectorise users f body inc end n
      ≡ vectorised (record f { blocks = with_end }) (n + 2 + 2 + 3 + 9)
  unfolding vectorise
  vectorise-made =
      ap
        (λ (o : Option (List Inst × ℕ)). elim o [
          | none ↦ undefined
          | some (insts, k) ↦
              let bs1 = set_insts body insts scaled in
              let bs2 =
                set_insts f.entry (insert_front (alloca_zero n) (insts_of f.entry bs1)) bs1 in
              elim (final_pointer (insts_of end bs2)) [
                | none ↦ undefined
                | some ptr ↦
                    vectorised
                      (record f {
                        blocks =
                            set_insts end (insert_front (sum_up k n ptr) (insts_of end bs2)) bs2;
                      })
                      (k + 9)
              ]
        ])
        (ap (vectorise_body users n (n + 2) scaled) body_before
          ∙ vectorise_body-round users n (n + 2) scaled before rest gep user h.summing)
      ∙ ap
          (λ (o : Option Operand). elim o [
            | none ↦ undefined
            | some ptr ↦
                vectorised
                  (record f {
                    blocks =
                        set_insts end
                          (insert_front (sum_up (n + 2 + 2 + 3) n ptr) (insts_of end with_entry))
                          with_entry;
                  })
                  (n + 2 + 2 + 3 + 9)
          ])
          (ap final_pointer end_before ∙ h.loads)

-- For a loop whose body's first GetElementPtr has a load as its only user, whose blocks differ from
-- each other and from the entry, whose exit block loads from `p`, and which counts in memory from 0 on
-- by one, with one element for each number: the pass vectorises it. It scales the step, puts the alloca
-- in the entry, and leaves of the body what stands before the GetElementPtr, the vector load, and the
-- addition to the alloca. A run of the blocks that it leaves, from the entry block on, with `k` rounds
-- through the header, the body and the step block, `4 * k` below 2 ^ 32 and the elements apart from the
-- counter and the alloca, and then the code that is put into the exit block, stores to `p` the sum of
-- the array's first `4 * k` elements modulo 2 ^ 32.
pub vectorise-Sums :
    (m : Machine) (users : List Block → ℕ → List Inst) (f : Func) (head body inc end n : ℕ)
    (before rest : List Inst) (gep user : Inst) (p : ℕ) (outer : ℕ → Bool) (ptr c base k : ℕ)
    (s : State)
    → IsSummingLoop users f body inc end n before rest gep user p
    → IsHeader head f.entry body inc end
    → IsCounted m outer
        (insts_of f.entry f.blocks)
        (insts_of head f.blocks)
        before
        (insts_of inc f.blocks)
        gep
        n
        ptr
        c
        base
        s
    → 4 * k < 2 ^ 32
    → ((i : ℕ)
        → i < 4 * k
        → (in_range (m.place n) 4 (base + i) ≡ false) × ((base + i == c) ≡ false))
    → Sums m f head body inc end n before gep p base k s (vectorise users f body inc end n)
vectorise-Sums m users f head body inc end n before rest gep user p outer ptr c base k s h header
      counted small elements =
    let bs = scaled users f body inc end n before rest gep user p h in
    let bs1 = with_body users f body inc end n before rest gep user p h in
    let bs2 = with_entry users f body inc end n before rest gep user p h in
    let there = λ (b : ℕ) (t : IsThere b f.blocks).
      IsThere-set b body (before ++ gep ∷ round (n + 2) gep.id n) bs
        (IsThere-set b inc (scale_step 0 (insts_of inc f.blocks)) f.blocks t) in
    let left = with_end users f body inc end n before rest gep user p h in
    let new_head : insts_of head left ≡ insts_of head f.blocks =
      insts_of-set_other head end _ bs2 header.head_end
      ∙ insts_of-set_other head f.entry _ bs1 header.head_entry
      ∙ insts_of-set_other head body _ bs header.head_body
      ∙ insts_of-set_other head inc _ f.blocks header.head_inc in
    let new_body : insts_of body left ≡ before ++ gep ∷ round (n + 2) gep.id n =
      insts_of-set_other body end _ bs2 (ground (arith, h.end_body))
      ∙ insts_of-set_other body f.entry _ bs1 (ground (arith, h.entry_body))
      ∙ insts_of-set_same body _ bs (IsThere-set body inc _ f.blocks h.there_body) in
    let new_inc : insts_of inc left ≡ scale_step 0 (insts_of inc f.blocks) =
      insts_of-set_other inc end _ bs2 (ground (arith, h.end_inc))
      ∙ insts_of-set_other inc f.entry _ bs1 (ground (arith, h.entry_inc))
      ∙ insts_of-set_other inc body _ bs (ground (arith, h.body_inc))
      ∙ insts_of-set_same inc _ f.blocks h.there_inc in
    let new_entry : insts_of f.entry left
        ≡ insert_front (alloca_zero n) (insts_of f.entry f.blocks) =
      insts_of-set_other f.entry end _ bs2 h.entry_end
      ∙ insts_of-set_same f.entry _ bs1 (there f.entry h.there_entry)
      ∙ ap (insert_front (alloca_zero n)) (
          insts_of-set_other f.entry body _ bs h.entry_body
          ∙ insts_of-set_other f.entry inc _ f.blocks h.entry_inc) in
    record {
      left = record f { blocks = with_end users f body inc end n before rest gep user p h };
      makes = vectorise-made users f body inc end n before rest gep user p h;
      new_body = new_body;
      new_inc = new_inc;
      new_entry = new_entry;
      new_end =
          insts_of-set_same end _ bs2 (IsThere-set end f.entry _ bs1 (there end h.there_end))
          ∙ ap (insert_front (sum_up (n + 2 + 2 + 3) n (value p)))
              (end_before users f body inc end n before rest gep user p h);
      adds_up =
          rw (new_head, new_body, new_inc, new_entry)
            (lanes-total m n k (n + 2 + 2 + 3) p _ _ (omega arith) (omega (arith, h.small_p))
              (λ j lt.
                lanes-rounds m outer (insts_of f.entry f.blocks) (insts_of head f.blocks) before
                  (insts_of inc f.blocks) gep n ptr c base s counted k j small elements lt));
    }
