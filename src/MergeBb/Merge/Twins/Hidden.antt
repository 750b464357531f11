-- ===== src/MergeBb/Merge/Twins/Hidden.antt =====
-- The values of two merged blocks of lib/MergeBB.cpp are hidden from the rest of the function.
use llvm_study.Base.{
  ℕ, ◌≤◌, ◌≡◌, sym, ◌∙◌, Bool, true, false, ◌||◌, List, [], ◌∷◌, ◌++◌, Option, none, some, ◌==◌,
  ==_iff, All, Bool-cases, inl, inr, ◌⊎◌, arith,
}
use mathlib.Core.Bool.{false≢true}
use mathlib.Core.Option.{none-ne-some, some-injective}
use llvm_study.Ir.{Value, local, Kind, phi, Instr}
use llvm_study.Containers.{address_eq}
use llvm_study.Cfg.{
  Block, value_eq_iff, find_block, is_phi, mentions, incoming_from, incoming_value,
}
use llvm_study.Cfg.Uses.{count_operands, defines}
use llvm_study.Cfg.Uses.Laws.{reads, all_insts, count_operands-positive}
use llvm_study.Cfg.Named.{All-find_block, All-map, All-and, Everywhere-at}
use llvm_study.Duplicate.Whole.{after_phis}
use llvm_study.MergeBb.Steps.Alike.{Unread}
use package.llvm_study.MergeBb.Merge.Twins.{IsWellFormed, ReadBy}
use package.llvm_study.MergeBb.Merge.Twins.Readers.{AreTwins, first-PhiOnly, second-PhiOnly}

-- An incoming value is an operand.
incoming_from-mentions :
    (blocks : List ℕ) (vs : List Value) (b : ℕ) (v : Value)
    → incoming_from blocks vs b ≡ some v
    → mentions vs v ≡ true
incoming_from-mentions [] vs b v h = absurd (none-ne-some v h)
incoming_from-mentions (c ∷ blocks) [] b v h = absurd (none-ne-some v h)
incoming_from-mentions (c ∷ blocks) (w ∷ vs) b v h = elim (Bool-cases (c == b)) [
  | inl e ↦
      let same : w ≡ v = some-injective w v (rw e at h) in ground (arith, (value_eq_iff w v).1 same)
  | inr e ↦ ground (arith, incoming_from-mentions blocks vs b v (rw e at h))
]

-- One that comes in from two blocks is an operand twice.
incoming_from-twice :
    (blocks : List ℕ) (vs : List Value) (a b : ℕ) (v : Value)
    → incoming_from blocks vs a ≡ some v
    → incoming_from blocks vs b ≡ some v
    → (a == b) ≡ false
    → 2 ≤ count_operands v vs
unfolding count_operands
incoming_from-twice [] vs a b v h k ne = absurd (none-ne-some v h)
incoming_from-twice (c ∷ blocks) [] a b v h k ne = absurd (none-ne-some v h)
incoming_from-twice (c ∷ blocks) (w ∷ vs) a b v h k ne = elim (Bool-cases (c == a)) [
  | inl e ↦
      let same : w ≡ v = some-injective w v (rw e at h) in
      let other : (c == b) ≡ false = ground (arith, ==_iff c a) in
      let rest = incoming_from-mentions blocks vs b v (rw other at k) in
      ground (arith, (value_eq_iff w v).1 same, count_operands-positive v vs rest)
  | inr e ↦ elim (Bool-cases (c == b)) [
    | inl e' ↦
        let same : w ≡ v = some-injective w v (rw e' at k) in
        let rest = incoming_from-mentions blocks vs a v (rw e at h) in
        ground (arith, (value_eq_iff w v).1 same, count_operands-positive v vs rest)
    | inr e' ↦
        let rest = incoming_from-twice blocks vs a b v (rw e at h) (rw e' at k) ne in
        ground (arith, rest)
  ]
]

pub incoming_value-reads :
    (z : Instr) (b i : ℕ) → incoming_value z b ≡ some (local i) → reads z i ≡ true
unfolding incoming_value
incoming_value-reads z b i h = by_kind z.kind h
  where
    by_kind :
        (k : Kind)
        → elim k as (λ _. Option Value) [
          | phi blocks ↦ incoming_from blocks z.operands b
          | _ ↦ none
        ]
          ≡ some (local i)
        → reads z i ≡ true
    by_kind (phi blocks) g = incoming_from-mentions blocks z.operands b (local i) g
    by_kind _ g = absurd (none-ne-some (local i) g)

incoming_value-once :
    (z : Instr) (a b i : ℕ)
    → incoming_value z a ≡ some (local i)
    → incoming_value z b ≡ some (local i)
    → count_operands (local i) z.operands ≤ 1
    → (a == b) ≡ true
unfolding incoming_value
incoming_value-once z a b i h k once = by_kind z.kind h k
  where
    by_kind :
        (d : Kind)
        → elim d as (λ _. Option Value) [
          | phi blocks ↦ incoming_from blocks z.operands a
          | _ ↦ none
        ]
          ≡ some (local i)
        → elim d as (λ _. Option Value) [
          | phi blocks ↦ incoming_from blocks z.operands b
          | _ ↦ none
        ]
          ≡ some (local i)
        → (a == b) ≡ true
    by_kind (phi blocks) g g' = elim (Bool-cases (a == b)) [
      | inl e ↦ e
      | inr e ↦
          let twice = incoming_from-twice blocks z.operands a b (local i) g g' e in
          absurd (omega arith)
    ]
    by_kind _ g g' = absurd (none-ne-some (local i) g)

pub All-forall :
    (P : ℕ → Instr → Type 0) (xs : List Instr)
    → ((i : ℕ) → All (P i) xs)
    → All (λ (x : Instr). (i : ℕ) → P i x) xs
All-forall P [] h = tt
All-forall P (x ∷ xs) h = (λ i. (h i).0, All-forall P xs (λ i. (h i).1))

pub All-always : (P : Instr → Type 0) (xs : List Instr) → ((x : Instr) → P x) → All P xs
All-always P [] f = tt
All-always P (x ∷ xs) f = (f x, All-always P xs f)

module _ (same_operation : Instr → Instr → Bool) (bs : List Block) (rules : IsWellFormed bs)
    (succ : ℕ) (x y : Block) (t : AreTwins same_operation bs succ x y) where
  -- A value of one of the two blocks.
  abbrev pub hidden : ℕ → Bool
  hidden i = defines x.insts i || defines y.insts i

  -- The edges on which a hidden value comes into a phi.
  abbrev pub ComesFrom : Instr → ℕ → Type 0
  ComesFrom z i =
      ((defines x.insts i ≡ true) × ((q : ℕ) → incoming_value z q ≡ some (local i) → q ≡ x.name))
      ⊎ ((defines y.insts i ≡ true) × ((q : ℕ) → incoming_value z q ≡ some (local i) → q ≡ y.name))

  -- A reader of a hidden value is a phi of the successor, for an edge from the two blocks.
  abbrev pub ReadsHidden : ℕ → Instr → Type 0
  ReadsHidden b z =
      (i : ℕ)
      → hidden i ≡ true
      → reads z i ≡ true
      → (b ≡ succ) × (is_phi z.kind ≡ true) × ComesFrom z i

  pub block-ReadsHidden :
      (b : ℕ) (w : Block) → find_block b bs ≡ some w → All (ReadsHidden b) (all_insts w)
  block-ReadsHidden b w found =
      All-forall
        (λ i z.
          hidden i ≡ true → reads z i ≡ true → (b ≡ succ) × (is_phi z.kind ≡ true) × ComesFrom z i)
        (all_insts w)
        (λ i. elim (Bool-cases (defines x.insts i)) [
          | inl d ↦
              All-map (ReadBy succ x.name i b) _ (all_insts w)
                (λ z g h r.
                  let k = g r in
                  (
                    k.0,
                    k.1,
                    inl (
                      d,
                      λ q e. sym ((==_iff x.name q).0 (incoming_value-once z x.name q i k.2 e k.3)),
                    ),
                  ))
                (Everywhere-at (ReadBy succ x.name i) b bs w found
                  (first-PhiOnly same_operation bs rules succ x y t i d))
          | inr d ↦ elim (Bool-cases (defines y.insts i)) [
            | inl d' ↦
                All-map (ReadBy succ y.name i b) _ (all_insts w)
                  (λ z g h r.
                    let k = g r in
                    (
                      k.0,
                      k.1,
                      inr (
                        d',
                        λ q e.
                            sym ((==_iff y.name q).0 (incoming_value-once z y.name q i k.2 e k.3)),
                      ),
                    ))
                  (Everywhere-at (ReadBy succ y.name i) b bs w found
                    (second-PhiOnly same_operation bs rules succ x y t i d'))
            | inr d' ↦ All-always _ (all_insts w) (λ z h r. absurd (false≢true (rw (d, d') at h)))
          ]
        ])

  after_phis-All :
      (P : Instr → Type 0) (zs : List Instr) (term : Instr)
      → All P (zs ++ term ∷ [])
      → All P (after_phis zs ++ term ∷ [])
  unfolding after_phis
  after_phis-All P [] term h = h
  after_phis-All P (z ∷ zs) term h = elim (Bool-cases (is_phi z.kind)) [
    | inl e ↦ rw e (after_phis-All P zs term h.1)
    | inr e ↦ rw e h
  ]

  -- The instructions after the phis read no hidden value, nor does the terminator.
  pub block-Unread :
      (b : ℕ) (w : Block)
      → find_block b bs ≡ some w
      → All (λ (z : Instr). Unread hidden z.operands) (after_phis w.insts ++ w.term ∷ [])
  block-Unread b w found =
      All-map _ _ (after_phis w.insts ++ w.term ∷ [])
        (λ z g i h. elim (Bool-cases (reads z i)) [
          | inl r ↦ absurd (false≢true (sym g.0 ∙ (g.1 i h r).1))
          | inr r ↦ r
        ])
        (All-and (λ (z : Instr). is_phi z.kind ≡ false) (ReadsHidden b)
          (after_phis w.insts ++ w.term ∷ [])
          (All-find_block
            (λ (v : Block).
              All (λ (z : Instr). is_phi z.kind ≡ false) (after_phis v.insts ++ v.term ∷ []))
            b bs w found rules.phis_first)
          (after_phis-All (ReadsHidden b) w.insts w.term (block-ReadsHidden b w found)))
