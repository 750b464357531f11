-- ===== src/SsSccp/Fold/Copies.antt =====
-- Steps 8 to 10 of `DoSCCP`: what the block `src` computes with the copy of `dst` at its end.
use llvm_study.Base.{
  ℕ, ◌+◌, ◌≤◌, ◌<◌, ◌≡◌, refl, ap, ap₂, ◌∙◌, Bool, true, false, List, [], ◌∷◌, ◌++◌, Option, none,
  some, ◌==◌, ==_iff, if◌then◌else◌, map, All, arith, Bool-cases, inl, inr,
}
use mathlib.Core.Option.{none-ne-some}
use llvm_study.Ir.{Value, const, local, block, global, undef, br, Instr}
use llvm_study.Ir.Exec.{
  Machine, State, value_of, result, exec, exec_all, exec_all-append, Agree, InScope, IsScoped,
}
use llvm_study.Ir.Frame.{exec_all-Agree}
use llvm_study.Containers.{address_eq, at, modify}
use llvm_study.Containers.Laws.{at-modify_default}
use llvm_study.Cfg.{Block, goes, value_eq, find_block}
use llvm_study.Duplicate.Clone.{remap_value, clone}
use llvm_study.Duplicate.Clone.Joined.{RefersTo, IsTyped}
use llvm_study.MergeBb.Merge.Twins.Crossing.{IsPhiFree}
use package.llvm_study.SsSccp.{Outcome, finished}
use package.llvm_study.SsSccp.Fold.{
  Predicate, branch_to, Placing, copy_insts, append_insts, emplace,
}

-- The instruction does not use its own value.
abbrev pub IsNotOwn : Instr → Type 0
IsNotOwn x = All (λ (v : Value). value_eq v (local x.id) ≡ false) x.operands

module _ (m : Machine) (n : ℕ) (valued : ℕ → Bool) where
  -- The values numbered below `n` are where the map says.
  pub record Follows (vmap : List (ℕ × ℕ)) (k : ℕ) (s t : State m.Mem) : Type 0 where
    pub same_mem : s.mem ≡ t.mem
    pub below : n ≤ k
    pub mapped : (i : ℕ) → i < n → at i i vmap < k
    pub same : (i : ℕ) → i < n → valued i ≡ true → s.env (at i i vmap) ≡ t.env i

  values-Follows :
      (vmap : List (ℕ × ℕ)) (k : ℕ) (s t : State m.Mem) (vs : List Value)
      → Follows vmap k s t
      → All (InScope n) vs
      → All (RefersTo valued) vs
      → map (value_of m s.env) (map (remap_value vmap) vs) ≡ map (value_of m t.env) vs
  values-Follows vmap k s t [] f h r = refl
  values-Follows vmap k s t (const w c ∷ vs) f h r =
      ap (λ l. c ∷ l) (values-Follows vmap k s t vs f h.1 r.1)
  values-Follows vmap k s t (local i ∷ vs) f h r =
      ap₂ ◌∷◌ (f.same i h.0 r.0) (values-Follows vmap k s t vs f h.1 r.1)
  values-Follows vmap k s t (block b ∷ vs) f h r =
      ap (λ l. m.symbol (block b) ∷ l) (values-Follows vmap k s t vs f h.1 r.1)
  values-Follows vmap k s t (global g ∷ vs) f h r =
      ap (λ l. m.symbol (global g) ∷ l) (values-Follows vmap k s t vs f h.1 r.1)
  values-Follows vmap k s t (undef ∷ vs) f h r =
      ap (λ l. m.symbol undef ∷ l) (values-Follows vmap k s t vs f h.1 r.1)

  module _ (j k : ℕ) (vmap : List (ℕ × ℕ)) where
    abbrev grown : List (ℕ × ℕ)
    grown = modify k j (λ _. k) vmap

    at-grown : (i : ℕ) → at i i grown ≡ (if j == i then k else at i i vmap)
    at-grown i = at-modify_default i k j i (λ _. k) vmap

    remap-grown :
        (vs : List Value)
        → All (λ (v : Value). value_eq v (local j) ≡ false) vs
        → map (remap_value grown) vs ≡ map (remap_value vmap) vs
    unfolding value_eq
    remap-grown [] h = refl
    remap-grown (const w c ∷ vs) h = ap (λ l. const w c ∷ l) (remap-grown vs h.1)
    remap-grown (local i ∷ vs) h =
        ap₂ (λ a l. local a ∷ l) (at-grown i ∙ ground (arith, h.0)) (remap-grown vs h.1)
    remap-grown (block b ∷ vs) h = ap (λ l. block b ∷ l) (remap-grown vs h.1)
    remap-grown (global g ∷ vs) h = ap (λ l. global g ∷ l) (remap-grown vs h.1)
    remap-grown (undef ∷ vs) h = ap (λ l. undef ∷ l) (remap-grown vs h.1)

  Follows-clone :
      (x : Instr) (vmap : List (ℕ × ℕ)) (k : ℕ) (s t : State m.Mem)
      → Follows vmap k s t
      → IsScoped n x
      → IsTyped valued x
      → IsNotOwn x
      → Follows
          (modify k x.id (λ _. k) vmap)
          (k + 1)
          (exec m (clone (modify k x.id (λ _. k) vmap) k x) s)
          (exec m x t)
  unfolding exec
  Follows-clone x vmap k s t f scoped typed own =
      let same_result : result m x.kind x.ty
            (map (value_of m s.env) (map (remap_value (grown x.id k vmap)) x.operands)) s.mem
          ≡ result m x.kind x.ty (map (value_of m t.env) x.operands) t.mem =
        ap₂ (result m x.kind x.ty)
          (ap (map (value_of m s.env)) (remap-grown x.id k vmap x.operands own)
            ∙ values-Follows vmap k s t x.operands f scoped.uses typed.operands_valued)
          f.same_mem in
      record {
        same_mem = ap (λ (q : ℕ × m.Mem). q.1) same_result;
        below = omega (arith, f.below);
        mapped = λ i h. ground (arith, f.mapped i h, at-grown x.id k vmap i);
        same = λ i h v. ground (
          arith,
          f.mapped i h,
          f.same i h v,
          typed.void_no_value,
          at-grown x.id k vmap i,
          ==_iff x.id i,
          ap (λ (q : ℕ × m.Mem). q.0) same_result,
          ap (λ (a : ℕ). s.env a) (at-grown x.id k vmap i),
        );
      }

  copy_insts-Follows :
      (xs : List Instr) (vmap : List (ℕ × ℕ)) (k : ℕ) (s t : State m.Mem)
      → Follows vmap k s t
      → All (IsScoped n) xs
      → All (IsTyped valued) xs
      → All IsNotOwn xs
      → let c = copy_insts xs vmap k in
        Follows c.vmap c.next (exec_all m c.insts s) (exec_all m xs t)
  unfolding copy_insts exec_all
  copy_insts-Follows [] vmap k s t f scoped typed own = f
  copy_insts-Follows (x ∷ xs) vmap k s t f scoped typed own =
      copy_insts-Follows xs (grown x.id k vmap) (k + 1) (exec m (clone (grown x.id k vmap) k x) s)
        (exec m x t) (Follows-clone x vmap k s t f scoped.0 typed.0 own.0) scoped.1 typed.1 own.1

find_block-append_insts :
    (b : ℕ) (insts : List Instr) (t : Instr) (bs : List Block) (x : Block)
    → find_block b bs ≡ some x
    → find_block b (append_insts b insts t bs)
      ≡ some (record x { insts = x.insts ++ insts; term = t })
unfolding find_block
find_block-append_insts b insts t [] x h = absurd (none-ne-some x h)
find_block-append_insts b insts t (z ∷ zs) x h = elim (Bool-cases (z.name == b)) [
  | inl q ↦
      rw (q, q)
        (ap
          (λ (o : Option Block). elim o [
            | none ↦ none
            | some y ↦ some (record y { insts = y.insts ++ insts; term = t })
          ])
          (rw q at h))
  | inr q ↦ rw (q, q) (find_block-append_insts b insts t zs x (rw q at h))
]

-- What the pass makes of the block `src`, before `DeleteDeadBlock` is called for `dst`: the code of
-- `src` and of `dst` in one block, up to the numbers of what was copied.
pub record Copies (m : Machine) (n : ℕ) (valued : ℕ → Bool) (src dst final : ℕ) (x y : Block)
    (delete_dead_block : ℕ → List Block → List Block) (o : Outcome Placing) : Type 1 where
  pub placed : Placing
  pub copies : o ≡ finished placed
  pub made : List Block
  pub deleted : placed.blocks ≡ delete_dead_block dst made
  pub new : Block
  pub found : find_block src made ≡ some new
  pub goes_on : (env : ℕ → ℕ) → goes env new.term.kind new.term.operands ≡ some final
  pub follows :
      (s t : State m.Mem)
      → Agree m n s t
      → Follows m n valued placed.vmap placed.next
          (exec_all m new.insts s)
          (exec_all m (x.insts ++ y.insts) t)

-- For two blocks without phis, the second of which ends in an unconditional branch, with instructions numbered below
-- `n` that use no value of their own and no void instruction, and a map that moves no value: the pass
-- joins them, the new block goes on where the second block went, and from states that agree on memory
-- and on the values numbered below `n` it leaves the memory that the two blocks leave one after the
-- other, and every value of theirs where the map says.
pub emplace-Copies :
    (m : Machine) (n : ℕ) (valued : ℕ → Bool) (predicate_of : Instr → Option Predicate)
    (is_sgt : ℕ → ℕ → ℕ → Bool) (predecessors : List Block → ℕ → List ℕ)
    (delete_dead_block : ℕ → List Block → List Block) (src dst final : ℕ) (x y : Block)
    (vmap : List (ℕ × ℕ)) (blocks : List Block)
    → (src == dst) ≡ false
    → find_block src blocks ≡ some x
    → find_block dst blocks ≡ some y
    → y.term.kind ≡ br
    → y.term.operands ≡ block final ∷ []
    → IsPhiFree x.insts
    → IsPhiFree y.insts
    → All (IsScoped n) x.insts
    → All (IsScoped n) y.insts
    → All (IsTyped valued) y.insts
    → All IsNotOwn y.insts
    → ((i : ℕ) → i < n → (at i i vmap < n) × (valued i ≡ true → at i i vmap ≡ i))
    → Copies m n valued src dst final x y delete_dead_block (
        emplace predicate_of is_sgt predecessors delete_dead_block src dst
          (record { blocks = blocks; vmap = vmap; next = n }))
unfolding emplace
emplace-Copies m n valued predicate_of is_sgt predecessors delete_dead_block src dst final x y vmap
      blocks differ found_src found_dst branch operands free_src free scoped_src scoped typed own
      fresh =
    let c = copy_insts y.insts vmap n in
    let made = append_insts src c.insts (branch_to c.next final) blocks in
    record {
      placed = record { blocks = delete_dead_block dst made; vmap = c.vmap; next = c.next + 1 };
      copies = rw (emplace, found_src, found_dst, operands, branch, differ) refl;
      made = made;
      deleted = refl;
      new = record x { insts = x.insts ++ c.insts; term = branch_to c.next final };
      found = find_block-append_insts src c.insts (branch_to c.next final) blocks x found_src;
      goes_on = λ env. refl;
      follows = λ s t a.
          rw (exec_all-append m x.insts c.insts s, exec_all-append m x.insts y.insts t)
            (weaken (
              copy_insts-Follows m n valued y.insts vmap n (exec_all m x.insts s)
                (exec_all m x.insts t) (start (exec_all-Agree m n x.insts s t scoped_src a)) scoped
                typed own));
    }
  where
    start : {s t : State m.Mem} → Agree m n s t → Follows m n valued vmap n s t
    start {s} {t} a = record {
      same_mem = a.same_mem;
      below = omega arith;
      mapped = λ i h. (fresh i h).0;
      same = λ i h v. ap s.env ((fresh i h).1 v) ∙ a.same_env i h;
    }

    weaken :
        {v : List (ℕ × ℕ)} {k : ℕ} {s t : State m.Mem}
        → Follows m n valued v k s t
        → Follows m n valued v (k + 1) s t
    weaken f = record {
      same_mem = f.same_mem;
      below = omega (arith, f.below);
      mapped = λ i h. omega (arith, f.mapped i h);
      same = f.same;
    }
