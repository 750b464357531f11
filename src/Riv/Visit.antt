-- ===== src/Riv/Visit.antt =====
-- The loop over a node's children, and how often a block stands in the trees.
use llvm_study.Base.{ℕ, ◌+◌, ◌<◌, ◌≡◌, refl, ap, Bool, ◌||◌, [], arith, ◌==◌, if◌then◌else◌}
use llvm_study.Containers.{address_eq, at, modify, has, insert_all}
use llvm_study.Containers.Laws.{at-modify, has-insert_all}
use package.llvm_study.Riv.{DomTrees, leaf, tree, PtrSet, Result, visit_children, size}

abbrev pub one_if : Bool → ℕ
one_if b = if b then 1 else 0

-- How often the block stands in the trees, at their roots, and below their roots.
abbrev pub count : ℕ → DomTrees → ℕ
count k leaf = 0
count k (tree b children siblings) = one_if (b == k) + count k children + count k siblings

abbrev pub count_roots : ℕ → DomTrees → ℕ
count_roots k leaf = 0
count_roots k (tree b children siblings) = one_if (b == k) + count_roots k siblings

abbrev pub count_inner : ℕ → DomTrees → ℕ
count_inner k leaf = 0
count_inner k (tree b children siblings) = count k children + count_inner k siblings

pub count-roots-inner : (k : ℕ) (t : DomTrees) → count k t ≡ count_roots k t + count_inner k t
count-roots-inner k leaf = omega arith
count-roots-inner k (tree b children siblings) = omega (arith, count-roots-inner k siblings)

module _ (defs rivs : PtrSet) where
  abbrev visited : DomTrees → DomTrees → Result → DomTrees × Result
  visited = visit_children defs rivs

  pub count-visited :
      (k : ℕ) (children deque : DomTrees) (m : Result)
      → (count k (visited children deque m).0 ≡ count k children + count k deque)
        × (count_inner k (visited children deque m).0
            ≡ count_inner k children + count_inner k deque)
        × (size (visited children deque m).0 ≡ size children + size deque)
  unfolding visit_children size
  count-visited k leaf deque m = omega arith
  count-visited k (tree c below siblings) deque m = omega (
    arith,
    count-visited k siblings (tree c below deque)
        (modify [] c (λ s. insert_all rivs s) (modify [] c (λ s. insert_all defs s) m)),
  )

  -- One child's set after its two insertions.
  at-inserted :
      (c k : ℕ) (m : Result)
      → at [] k (modify [] c (λ s. insert_all rivs s) (modify [] c (λ s. insert_all defs s) m))
        ≡ (if c == k then insert_all rivs (insert_all defs (at [] c m)) else at [] k m)
  at-inserted c k m = ground (
    arith,
    at-modify [] c k (λ s. insert_all rivs s) (modify [] c (λ s. insert_all defs s) m),
    at-modify [] c k (λ s. insert_all defs s) m,
    at-modify [] c c (λ s. insert_all defs s) m,
  )

  pub at-visited_other :
      (k : ℕ) (children deque : DomTrees) (m : Result)
      → count_roots k children ≡ 0
      → at [] k (visited children deque m).1 ≡ at [] k m
  unfolding visit_children
  at-visited_other k leaf deque m h = refl
  at-visited_other k (tree c below siblings) deque m h = ground (
    arith,
    at-inserted c k m,
    at-visited_other k siblings (tree c below deque)
        (modify [] c (λ s. insert_all rivs s) (modify [] c (λ s. insert_all defs s) m)),
  )

  has-inserted :
      (c k v : ℕ) (m : Result)
      → has v
          (at [] k (modify [] c (λ s. insert_all rivs s) (modify [] c (λ s. insert_all defs s) m)))
        ≡ (if c == k then has v (at [] k m) || has v defs || has v rivs else has v (at [] k m))
  has-inserted c k v m = rw (at-inserted c k m) (
      ground (
        arith,
        has-insert_all v rivs (insert_all defs (at [] c m)),
        has-insert_all v defs (at [] c m),
      ))

  pub has-visited_child :
      (k v : ℕ) (children deque : DomTrees) (m : Result)
      → 0 < count_roots k children
      → has v (at [] k (visited children deque m).1)
        ≡ (has v (at [] k m) || has v defs || has v rivs)
  unfolding visit_children
  has-visited_child k v leaf deque m h = absurd (omega arith)
  has-visited_child k v (tree c below siblings) deque m h =
      let m' =
        modify [] c (λ (s : PtrSet). insert_all rivs s)
          (modify [] c (λ (s : PtrSet). insert_all defs s) m) in
      ground (
        arith,
        has-inserted c k v m,
        λ (z : count_roots k siblings ≡ 0).
            ap (has v) (at-visited_other k siblings (tree c below deque) m' z),
        has-visited_child k v siblings (tree c below deque) m',
      )
