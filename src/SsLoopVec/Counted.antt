-- ===== src/SsLoopVec/Counted.antt =====
-- A run of the loop that `DoImpl` leaves: the entry block, and as many rounds through the header, the
-- body and the step block.
use llvm_study.Base.{
  ℕ, zero, suc, ◌+◌, ◌*◌, ◌-◌, ◌%◌, ◌^◌, ◌≡◌, refl, ap, ◌∙◌, true, false, List, [], ◌∷◌, ◌++◌, ◌==◌,
  if◌then◌else◌, All, arith,
}
use package.llvm_study.SsLoopVec.{
  value, Inst, load, store, is_phi, scale_step, alloca_zero, insert_front,
}
use package.llvm_study.SsLoopVec.Exec.{Machine, State, define, in_range, exec, exec_all}
use package.llvm_study.SsLoopVec.Step.{step, scale_step-quadruples}
use package.llvm_study.SsLoopVec.Sum.{env-defined}

-- The step block of an unoptimised loop: the counter is loaded, one is added, and it is stored.
abbrev pub load_counter : ℕ → ℕ → Inst
load_counter id ptr = record { id = id; opcode = load; lanes = 1; operands = value ptr ∷ [] }

abbrev pub store_counter : ℕ → ℕ → ℕ → Inst
store_counter id new ptr = record {
  id = id;
  opcode = store;
  lanes = 1;
  operands = value new ∷ value ptr ∷ [];
}

abbrev pub count_up : ℕ → ℕ → ℕ → ℕ → List Inst
count_up old new id ptr = load_counter old ptr ∷ step true new old 1 ∷ store_counter id new ptr ∷ []

module _ (m : Machine) where
  pub exec_all-append :
      (xs ys : List Inst) (s : State) → exec_all m (xs ++ ys) s ≡ exec_all m ys (exec_all m xs s)
  unfolding exec_all
  exec_all-append [] ys s = refl
  exec_all-append (x ∷ xs) ys s = exec_all-append xs ys (exec m x s)

  -- As many rounds, each from the header on.
  abbrev pub rounds : List Inst → List Inst → List Inst → ℕ → State → State
  rounds header body inc zero s = s
  rounds header body inc (suc k) s =
      exec_all m inc (exec_all m body (exec_all m header (rounds header body inc k s)))

  module _ (old new id ptr c : ℕ) (s : State) (at_c : s.env ptr 0 ≡ c) (ne : (ptr == old) ≡ false)
      (ne' : (ptr == new) ≡ false) where
    abbrev s1 : State
    s1 = define old (λ j. s.mem (s.env ptr 0 + j)) s

    abbrev s2 : State
    s2 = define new (λ j. (s1.env old j + 4 * 1) % 2 ^ 32) s1

    counted :
        exec_all m (scale_step 0 (count_up old new id ptr)) s ≡ exec m (store_counter id new ptr) s2
    unfolding exec_all exec
    counted =
        let quad =
          scale_step-quadruples m true new old 1 (load_counter old ptr ∷ [])
            (store_counter id new ptr ∷ []) s1 (refl, tt) (omega arith) in
        ap (λ l. exec_all m l s) quad.1 ∙ ap (λ u. exec m (store_counter id new ptr) u) quad.2

    ptr2 : s2.env ptr 0 ≡ c
    ptr2 = rw (ne, ne') at_c

    new2 : (j : ℕ) → s2.env new j ≡ (s.mem (c + j) + 4) % 2 ^ 32
    new2 j =
        ap (λ (v : ℕ → ℕ). v j) (env-defined new _ s1)
        ∙ ap (λ (v : ℕ → ℕ). (v j + 4 * 1) % 2 ^ 32) (env-defined old _ s)
        ∙ ap (λ (q : ℕ). (s.mem (q + j) + 4 * 1) % 2 ^ 32) at_c

    pub counted-mem :
        (a : ℕ)
        → (exec_all m (scale_step 0 (count_up old new id ptr)) s).mem a
          ≡ (if in_range c 1 a then (s.mem (c + (a - c)) + 4) % 2 ^ 32 else s.mem a)
    unfolding exec
    counted-mem a =
        ap (λ (u : State). u.mem a) counted
        ∙ ap (λ (q : ℕ). if in_range q 1 a then s2.env new (a - q) else s.mem a) ptr2
        ∙ ap (λ (q : ℕ). if in_range c 1 a then q else s.mem a) (new2 (a - c))

    pub counted-env :
        (i : ℕ)
        → (i == old) ≡ false
        → (i == new) ≡ false
        → (exec_all m (scale_step 0 (count_up old new id ptr)) s).env i ≡ s.env i
    unfolding exec
    counted-env i h h' = ap (λ (u : State). u.env i) counted ∙ rw (h', h) refl

  -- The alloca is zeroed.
  pub alloca_zero-mem :
      (n a : ℕ) (s : State)
      → in_range (m.place n) 4 a ≡ true
      → (exec_all m (alloca_zero n) s).mem a ≡ 0
  unfolding exec_all exec
  alloca_zero-mem n a s h =
      let u = define n (λ j. m.place n) s in
      ap (λ (v : ℕ → ℕ). if in_range (v 0) 4 a then 0 else s.mem a) (env-defined n _ s) ∙ rw h refl

  pub alloca_zero-env : (n : ℕ) (s : State) → (exec_all m (alloca_zero n) s).env n 0 ≡ m.place n
  unfolding exec_all exec
  alloca_zero-env n s = ap (λ (v : ℕ → ℕ). v 0) (env-defined n _ s)

pub insert_front-append :
    (new xs : List Inst)
    → All (λ (x : Inst). is_phi x.opcode ≡ false) xs
    → insert_front new xs ≡ new ++ xs
unfolding insert_front
insert_front-append [] [] h = refl
insert_front-append (y ∷ ys) [] h = ap (λ l. y ∷ l) (insert_front-append ys [] tt)
insert_front-append new (x ∷ xs) h = rw h.0 refl
