-- ===== src/MergeBb/Merge/Twins/Edges.antt =====
-- The phis that follow two merged blocks of lib/MergeBB.cpp: on which edges they take which values.
use llvm_study.Base.{
  ℕ, ◌≡◌, refl, sym, ap, ◌∙◌, Bool, true, false, List, [], ◌∷◌, ◌++◌, some, ◌==◌, ==_iff, All,
  Bool-cases, Option-cases, inl, inr, arith,
}
use mathlib.Core.Bool.{false≢true}
use mathlib.Core.Option.{none-ne-some, some-injective}
use llvm_study.Ir.{Value, const, local, block, global, undef, Instr, is_void}
use llvm_study.Ir.Exec.{Machine, State, value_of}
use llvm_study.Containers.{address_eq}
use llvm_study.Cfg.{Block, find_block, is_phi, is_dbg, incoming_value}
use llvm_study.Cfg.Uses.{num_uses, defines, parent_of}
use llvm_study.Cfg.Uses.Laws.{reads, all_insts, num_uses-AreUnread}
use llvm_study.Cfg.Named.{IsNamed, All-find_block, All-map, All-and, Everywhere-at}
use llvm_study.Duplicate.Whole.{phis_of, after_phis}
use llvm_study.MergeBb.Lockstep.Laws.{non_dbg}
use llvm_study.MergeBb.Steps.Alike.{computes, shown, Alike, PhisAgree}
use package.llvm_study.MergeBb.Merge.Twins.{IsMeta, IsWellFormed}
use package.llvm_study.MergeBb.Merge.Twins.Readers.{AreTwins}
use package.llvm_study.MergeBb.Merge.Twins.Hidden.{
  All-forall, All-always, hidden, ReadsHidden, incoming_value-reads, block-ReadsHidden,
}

-- The phis are among the instructions.
pub phis_of-All :
    (P : Instr → Type 0) (zs : List Instr) (term : Instr)
    → All P (zs ++ term ∷ [])
    → All P (phis_of zs)
unfolding phis_of
phis_of-All P [] term h = tt
phis_of-All P (z ∷ zs) term h = elim (Bool-cases (is_phi z.kind)) [
  | inl e ↦ rw e (h.0, phis_of-All P zs term h.1)
  | inr e ↦ rw e tt
]

-- A number that is used and belongs to an instruction of a block has a result in it.
pub defines-computes :
    (bs : List Block) (i : ℕ) (zs : List Instr)
    → All (λ (z : Instr). is_void z.ty ≡ true → num_uses z.id bs ≡ 0) zs
    → (num_uses i bs == 0) ≡ false
    → defines zs i ≡ true
    → computes zs i ≡ true
defines-computes bs i [] void used d = d
defines-computes bs i (z ∷ zs) void used d = elim (Bool-cases (z.id == i)) [
  | inr e ↦ ground (arith, defines-computes bs i zs void.1 used, e, d)
  | inl e ↦
      let valued : is_void z.ty ≡ false = elim (Bool-cases (is_void z.ty)) [
        | inr v ↦ v
        | inl v ↦
            let unused : num_uses i bs ≡ 0 =
              ap (λ (k : ℕ). num_uses k bs) (sym ((==_iff z.id i).0 e)) ∙ void.0 v in
            absurd (false≢true (sym used ∙ (==_iff (num_uses i bs) 0).1 unused))
      ] in
      ground (arith, valued, e)
]

-- It belongs to one that is no debug instruction.
pub defines-non_dbg :
    (bs : List Block) (i : ℕ) (zs : List Instr)
    → All IsMeta zs
    → All (λ (z : Instr). is_void z.ty ≡ true → num_uses z.id bs ≡ 0) zs
    → (num_uses i bs == 0) ≡ false
    → defines zs i ≡ true
    → defines (non_dbg zs) i ≡ true
defines-non_dbg bs i [] meta void used d = d
defines-non_dbg bs i (z ∷ zs) meta void used d = elim (Bool-cases (is_dbg z.kind)) [
  | inr e ↦ rw e (ground (arith, defines-non_dbg bs i zs meta.1 void.1 used, d))
  | inl e ↦
      let unused = void.0 (meta.0 e).0 in
      let other : (z.id == i) ≡ false = elim (Bool-cases (z.id == i)) [
        | inr v ↦ v
        | inl v ↦
            let k = ap (λ (j : ℕ). num_uses j bs) (sym ((==_iff z.id i).0 v)) ∙ unused in
            absurd (false≢true (sym used ∙ (==_iff (num_uses i bs) 0).1 k))
      ] in
      rw e (defines-non_dbg bs i zs meta.1 void.1 used (rw other at d))
]

pub parent_of-defines :
    (bs : List Block) (i b : ℕ) (w : Block) (zs : List Block)
    → find_block b bs ≡ some w
    → IsNamed bs zs
    → parent_of i zs ≡ some b
    → defines w.insts i ≡ true
unfolding parent_of
parent_of-defines bs i b w [] found named h = absurd (none-ne-some b h)
parent_of-defines bs i b w (z ∷ zs) found named h = elim (Bool-cases (defines z.insts i)) [
  | inr e ↦ parent_of-defines bs i b w zs found named.1 (rw e at h)
  | inl e ↦
      let at_b : z.name ≡ b = some-injective z.name b (rw e at h) in
      let same : z ≡ w =
        some-injective z w (sym named.0 ∙ ap (λ (c : ℕ). find_block c bs) at_b ∙ found) in
      ap (λ (v : Block). defines v.insts i) (sym same) ∙ e
]

-- What is read has uses.
abbrev pub AreUsed : List Block → Instr → Type 0
AreUsed bs z = (i : ℕ) → reads z i ≡ true → (num_uses i bs == 0) ≡ false

pub block-AreUsed :
    (bs : List Block) (b : ℕ) (w : Block)
    → find_block b bs ≡ some w
    → All (AreUsed bs) (all_insts w)
block-AreUsed bs b w found =
    All-forall (λ i z. reads z i ≡ true → (num_uses i bs == 0) ≡ false) (all_insts w)
      (λ i. elim (Bool-cases (num_uses i bs == 0)) [
        | inl e ↦
            All-map (λ (z : Instr). reads z i ≡ false) _ (all_insts w)
              (λ z unread r. absurd (false≢true (sym unread ∙ r)))
              (Everywhere-at (λ c z. reads z i ≡ false) b bs w found
                (num_uses-AreUnread i bs ((==_iff (num_uses i bs) 0).0 e)))
        | inr e ↦ All-always _ (all_insts w) (λ z r. e)
      ])

module _ (same_operation : Instr → Instr → Bool) (bs : List Block) (rules : IsWellFormed bs)
    (succ : ℕ) (x y : Block) (t : AreTwins same_operation bs succ x y) where
  abbrev hides : ℕ → Bool
  hides = hidden same_operation bs rules succ x y t

  abbrev ReadsHere : ℕ → Instr → Type 0
  ReadsHere = ReadsHidden same_operation bs rules succ x y t

  pub void_unused_in :
      (b : ℕ) (w : Block)
      → find_block b bs ≡ some w
      → All (λ (z : Instr). is_void z.ty ≡ true → num_uses z.id bs ≡ 0) w.insts
  void_unused_in b w found =
      All-find_block
        (λ (v : Block). All (λ (z : Instr). is_void z.ty ≡ true → num_uses z.id bs ≡ 0) v.insts) b
        bs w found rules.void_unused

  module _ (m : Machine) (u v : State m.Mem) where
    -- A value that comes in from the block `b`, which is not the first of the two.
    incoming-same :
        (b c : ℕ) (w : Block) (p : Instr) (i : ℕ)
        → find_block b bs ≡ some w
        → (b == x.name) ≡ false
        → after_phis y.insts ≡ y.insts
        → Alike m (shown m hides (after_phis w.insts)) u v
        → ReadsHere c p
        → AreUsed bs p
        → incoming_value p b ≡ some (local i)
        → u.env i ≡ v.env i
    incoming-same b c w p i found other plain a g used e = elim (Bool-cases (hides i)) [
      | inr h ↦ a.same_env i (rw h refl)
      | inl h ↦
          let r = incoming_value-reads p b i e in
          elim ((g i h r).2) [
            | inl (d, edge) ↦ absurd (false≢true (sym other ∙ (==_iff b x.name).1 (edge b e)))
            | inr (d, edge) ↦
                let same : w ≡ y =
                  some-injective w y
                    (sym found ∙ ap (λ (k : ℕ). find_block k bs) (edge b e) ∙ t.found2) in
                let computed : computes (after_phis w.insts) i ≡ true =
                  ap (λ (k : Block). computes (after_phis k.insts) i) same
                  ∙ ap (λ (zs : List Instr). computes zs i) plain
                  ∙ defines-computes bs i y.insts (void_unused_in y.name y t.found2) (used i r) d in
                a.same_env i (rw (h, computed) refl)
          ]
    ]

    -- The phis of the next block `c`.
    pub edge-PhisAgree :
        (b c : ℕ) (w next : Block)
        → find_block b bs ≡ some w
        → find_block c bs ≡ some next
        → (b == x.name) ≡ false
        → after_phis y.insts ≡ y.insts
        → Alike m (shown m hides (after_phis w.insts)) u v
        → PhisAgree m b b u v (phis_of next.insts)
    edge-PhisAgree b c w next found found_next other plain a = phis_of-All _ next.insts next.term (
        All-map _ _ (all_insts next)
          (λ p k. elim (Option-cases (incoming_value p b)) [
            | inl e ↦ rw e refl
            | inr (val, e) ↦ rw e (by_value val p k.0 k.1 e)
          ])
          (All-and (ReadsHere c) (AreUsed bs) (all_insts next)
            (block-ReadsHidden same_operation bs rules succ x y t c next found_next)
            (block-AreUsed bs c next found_next)))
      where
        by_value :
            (val : Value) (p : Instr)
            → ReadsHere c p
            → AreUsed bs p
            → incoming_value p b ≡ some val
            → value_of m u.env val ≡ value_of m v.env val
        by_value (local i) p g used e = incoming-same b c w p i found other plain a g used e
        by_value (const k n) p g used e = refl
        by_value (block k) p g used e = refl
        by_value (global k) p g used e = refl
        by_value undef p g used e = refl
