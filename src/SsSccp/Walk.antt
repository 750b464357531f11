-- ===== src/SsSccp/Walk.antt =====
-- The level-by-level recursion of SsSCCP/SsSCCP.cpp visits a subtree in preorder.
use llvm_study.Base.{
  ℕ, zero, suc, ◌≤◌, ◌<◌, ◌≡◌, refl, sym, ap, ap₂, append-nil, ◌∙◌, fun_ext, true, false, List, [],
  ◌∷◌, ◌++◌, if◌then◌else◌, ◌==◌, ==_iff, arith, ltb, Bool-cases, inl, inr,
}
use llvm_study.Riv.{DomTrees, leaf, tree}
use package.llvm_study.SsSccp.{
  Outcome, finished, cast_failed, undefined, endless, out_of_fuel, and_then, Node, nodes_of,
  each_at, walk,
}

abbrev pub depth : DomTrees → ℕ
depth leaf = 0
depth (tree b children siblings) =
    let inner = suc (depth children) in
    let outer = depth siblings in if ltb inner outer then outer else inner

-- The blocks of the trees, each before those below it.
abbrev pub preorder : DomTrees → List ℕ
preorder leaf = []
preorder (tree b children siblings) = b ∷ preorder children ++ preorder siblings

module _ {ℓ} {S : Type ℓ} where
  -- The blocks visited one after the other, up to a failure.
  abbrev pub visit_all : (ℕ → S → Outcome S) → List ℕ → S → Outcome S
  visit_all visit [] s = finished s
  visit_all visit (b ∷ bs) s = and_then (visit b s) (visit_all visit bs)

  and_then_assoc :
      (o : Outcome S) (f g : S → Outcome S)
      → and_then (and_then o f) g ≡ and_then o (λ s. and_then (f s) g)
  and_then_assoc (finished s) f g = refl
  and_then_assoc cast_failed f g = refl
  and_then_assoc undefined f g = refl
  and_then_assoc endless f g = refl
  and_then_assoc out_of_fuel f g = refl

  visit_all-append :
      (visit : ℕ → S → Outcome S) (xs ys : List ℕ) (s : S)
      → visit_all visit (xs ++ ys) s ≡ and_then (visit_all visit xs s) (visit_all visit ys)
  visit_all-append visit [] ys s = refl
  visit_all-append visit (x ∷ xs) ys s =
      ap (and_then (visit x s)) (fun_ext (λ t. visit_all-append visit xs ys t))
      ∙ sym (and_then_assoc (visit x s) (visit_all visit xs) (visit_all visit ys))

  each_at-append :
      (level : ℕ) (visit : Node → S → Outcome S) (xs ys : List Node) (s : S)
      → each_at level visit (xs ++ ys) s
        ≡ and_then (each_at level visit xs s) (each_at level visit ys)
  each_at-append level visit [] ys s = refl
  each_at-append level visit (x ∷ xs) ys s = elim (Bool-cases (x.level == level)) [
    | inl e ↦ rw e (
        ap (and_then (visit x s)) (fun_ext (λ t. each_at-append level visit xs ys t))
        ∙ sym (and_then_assoc (visit x s) (each_at level visit xs) (each_at level visit ys)))
    | inr e ↦ rw e (each_at-append level visit xs ys s)
  ]

  -- Nodes below the level are passed over.
  each_at-deeper :
      (level l : ℕ) (visit : Node → S → Outcome S) (t : DomTrees) (s : S)
      → level < l
      → each_at level visit (nodes_of l t) s ≡ finished s
  each_at-deeper level l visit leaf s lt = refl
  each_at-deeper level l visit (tree b children siblings) s lt =
      let skip : (l == level) ≡ false = ground arith in
      rw skip (
        each_at-append level visit (nodes_of (suc l) children) (nodes_of l siblings) s
        ∙ rw (each_at-deeper level (suc l) visit children s (omega arith))
            (each_at-deeper level l visit siblings s lt))

  module _ (visit : ℕ → S → Outcome S) where
    abbrev enter : ℕ → ℕ → Node → S → Outcome S
    enter fuel level d u = and_then (visit d.block u) (walk visit fuel d (suc level))

    -- From a node to the trees below it.
    walk-next :
        (fuel level b : ℕ) (children : DomTrees) (s : S)
        → walk visit
            (suc fuel)
            (record { block = b; level = level; below = children })
            (suc level)
            s
          ≡ each_at (suc level) (enter fuel (suc level)) (nodes_of (suc level) children) s
    unfolding walk
    walk-next fuel level b children s =
        let skip : (level == suc level) ≡ false = ground arith in rw skip refl

    walk-below :
        (fuel level : ℕ) (t : DomTrees) (s : S)
        → depth t ≤ fuel
        → each_at level (enter fuel level) (nodes_of level t) s ≡ visit_all visit (preorder t) s
    walk-below fuel level leaf s enough = refl
    walk-below zero level (tree b children siblings) s enough = absurd (ground arith)
    walk-below (suc fuel) level (tree b children siblings) s enough =
        let here : (level == level) ≡ true = (==_iff level level).1 refl in
        let rest : each_at level (enter (suc fuel) level)
              (nodes_of (suc level) children ++ nodes_of level siblings)
            ≡ visit_all visit (preorder siblings) =
          fun_ext (λ u.
            each_at-append level (enter (suc fuel) level) (nodes_of (suc level) children)
              (nodes_of level siblings) u
            ∙ ap
                (λ o. and_then o (each_at level (enter (suc fuel) level) (nodes_of level siblings)))
                (each_at-deeper level (suc level) (enter (suc fuel) level) children u (omega arith))
            ∙ walk-below (suc fuel) level siblings u (ground arith)) in
        let inner : walk visit (suc fuel) (record { block = b; level = level; below = children })
              (suc level)
            ≡ visit_all visit (preorder children) =
          fun_ext (λ u.
            walk-next fuel level b children u
            ∙ walk-below fuel (suc level) children u (ground arith)) in
        rw here (
          ap₂ (λ f g. and_then (and_then (visit b s) f) g) inner rest
          ∙ and_then_assoc (visit b s) (visit_all visit (preorder children))
              (visit_all visit (preorder siblings))
          ∙ ap (and_then (visit b s)) (
              fun_ext
                (λ u. sym (visit_all-append visit (preorder children) (preorder siblings) u))))

    -- With fuel above the depth of the tree: the walk from a node at its own level visits the node
    -- and every block that it dominates, each once and after its dominators, in preorder.
    pub walk-visit_all :
        (fuel : ℕ) (n : Node) (s : S)
        → suc (depth n.below) ≤ fuel
        → walk visit (suc fuel) n n.level s ≡ visit_all visit (n.block ∷ preorder n.below) s
    unfolding walk
    walk-visit_all fuel n s enough =
        let t = tree n.block n.below leaf in
        ap (λ ns. each_at n.level (enter fuel n.level) (n ∷ ns) s)
          (sym (append-nil (nodes_of (suc n.level) n.below)))
        ∙ walk-below fuel n.level t s (ground arith)
        ∙ ap (λ bs. visit_all visit (n.block ∷ bs) s) (append-nil (preorder n.below))
