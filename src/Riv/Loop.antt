-- ===== src/Riv/Loop.antt =====
-- The worklist loop ends, and leaves every child with its parent's set and definitions.
use llvm_study.Base.{
  ℕ, zero, suc, ◌+◌, ◌≤◌, ◌<◌, ◌≡◌, refl, ◌∙◌, false, ◌||◌, [], Option, some, arith, ◌==◌,
}
use llvm_study.Containers.{address_eq, at, modify, has, insert_all}
use llvm_study.Containers.Laws.{at-modify}
use package.llvm_study.Riv.{DomTrees, leaf, tree, PtrSet, Result, visit_children, process, size}
use package.llvm_study.Riv.Visit.{
  one_if, count, count_roots, count_inner, count-roots-inner, count-visited, at-visited_other,
  has-visited_child,
}

-- What a child of `p` holds: what `p` holds, and what `p` defines.
abbrev pub Step : Result → Result → ℕ → ℕ → Type 0
Step defined final p c =
    (v : ℕ) → has v (at [] c final) ≡ (has v (at [] p final) || has v (at [] p defined))

abbrev pub Inherits : Result → Result → ℕ → DomTrees → Type 0
Inherits defined final p leaf = Unit
Inherits defined final p (tree c below siblings) =
    Step defined final p c × Inherits defined final p siblings

-- Every child in the trees holds what it should.
abbrev pub Solved : Result → Result → DomTrees → Type 0
Solved defined final leaf = Unit
Solved defined final (tree p children siblings) =
    Inherits defined final p children
    × Solved defined final children
    × Solved defined final siblings

Inherits-intro :
    (defined final : Result) (p : ℕ) (children : DomTrees)
    → ((c : ℕ) → 0 < count_roots c children → Step defined final p c)
    → Inherits defined final p children
Inherits-intro defined final p leaf h = tt
Inherits-intro defined final p (tree c below siblings) h =
    (h c (ground arith), Inherits-intro defined final p siblings (λ d k. h d (omega arith)))

Solved-visited :
    (defined final : Result) (defs rivs : PtrSet) (children deque : DomTrees) (m : Result)
    → Solved defined final (visit_children defs rivs children deque m).0
    → Solved defined final children × Solved defined final deque
unfolding visit_children
Solved-visited defined final defs rivs leaf deque m h = (tt, h)
Solved-visited defined final defs rivs (tree c below siblings) deque m h =
    let (later, rest) =
      Solved-visited defined final defs rivs siblings (tree c below deque)
        (modify [] c (λ s. insert_all rivs s) (modify [] c (λ s. insert_all defs s) m)) h in
    ((rest.0, rest.1, later), rest.2)

-- Each block stands in the trees once at most, and no block below a root has a value yet.
pub record Ready (t : DomTrees) (m : Result) : Type 0 where
  pub once : (k : ℕ) → count k t ≤ 1
  pub blank : (k v : ℕ) → 0 < count_inner k t → has v (at [] k m) ≡ false

-- The loop returned, left the sets of all but the blocks below the roots, and filled those.
pub record Finished (defined : Result) (t : DomTrees) (m : Result) (result : Option Result)
    : Type 0 where
  pub final : Result
  pub returns : result ≡ some final
  pub frame : (k : ℕ) → count_inner k t ≡ 0 → at [] k final ≡ at [] k m
  pub solved : Solved defined final t

at-touch : (p k : ℕ) (m : Result) → at [] k (modify [] p (λ s. s) m) ≡ at [] k m
at-touch p k m = ground (arith, at-modify [] p k (λ (s : PtrSet). s) m)

-- One round: the root `p` leaves the deque, and its children enter it.
module _ (defined : Result) (p : ℕ) (children deque : DomTrees) (m : Result)
    (ready : Ready (tree p children deque) m) where
  abbrev touched : Result
  touched = modify [] p (λ s. s) m

  abbrev after : DomTrees × Result
  after = visit_children (at [] p defined) (at [] p touched) children deque touched

  at-after_other : (k : ℕ) → count_roots k children ≡ 0 → at [] k after.1 ≡ at [] k m
  at-after_other k none_there =
      at-visited_other (at [] p defined) (at [] p touched) k children deque touched none_there
      ∙ at-touch p k m

  counts :
      (k : ℕ)
      → (count k after.0 ≡ count k children + count k deque)
        × (count_inner k after.0 ≡ count_inner k children + count_inner k deque)
        × (size after.0 ≡ size children + size deque)
  counts k = count-visited (at [] p defined) (at [] p touched) k children deque touched

  once_at :
      (k : ℕ)
      → one_if (p == k)
          + (count_roots k children + count_inner k children)
          + (count_roots k deque + count_inner k deque)
        ≤ 1
  once_at k = omega (arith, ready.once k, count-roots-inner k children, count-roots-inner k deque)

  Ready-after : Ready after.0 after.1
  Ready-after = record {
    once = λ k.
        omega (arith, counts k, once_at k, count-roots-inner k children, count-roots-inner k deque);
    blank = λ k v below.
        let inside : 0 < count_inner k (tree p children deque) =
          omega (arith, counts k, count-roots-inner k children) in
        rw (at-after_other k (omega (arith, counts k, once_at k))) (ready.blank k v inside);
  }

  module _ (result : Option Result) (rest : Finished defined after.0 after.1 result) where
    Step-child : (c : ℕ) → 0 < count_roots c children → Step defined rest.final p c
    Step-child c is_child v =
        let child_kept : at [] c rest.final ≡ at [] c after.1 =
          rest.frame c (omega (arith, counts c, once_at c)) in
        let parent_kept : at [] p rest.final ≡ at [] p m =
          rest.frame p (ground (arith, counts p, once_at p))
          ∙ at-after_other p (ground (arith, once_at p)) in
        let inside : 0 < count_inner c (tree p children deque) =
          omega (arith, count-roots-inner c children) in
        rw
          (
            child_kept,
            parent_kept,
            has-visited_child (at [] p defined) (at [] p touched) c v children deque touched
                is_child,
            at-touch p c m,
            at-touch p p m,
            ready.blank c v inside,
          )
          (ground arith)

    Finished-round : Finished defined (tree p children deque) m result
    Finished-round =
        let parts =
          Solved-visited defined rest.final (at [] p defined) (at [] p touched) children deque
            touched rest.solved in
        record {
          final = rest.final;
          returns = rest.returns;
          frame = λ k h.
              rest.frame k (omega (arith, counts k, count-roots-inner k children))
              ∙ at-after_other k (omega (arith, count-roots-inner k children));
          solved = (Inherits-intro defined rest.final p children Step-child, parts.0, parts.1);
        }

-- With a round for each block the loop finishes.
pub process-Finished :
    (fuel : ℕ) (defined : Result) (t : DomTrees) (m : Result)
    → size t ≤ fuel
    → Ready t m
    → Finished defined t m (process fuel defined t m)
unfolding process size
process-Finished fuel defined leaf m h ready = record {
  final = m;
  returns = refl;
  frame = λ k z. refl;
  solved = tt;
}
process-Finished zero defined (tree p children deque) m h ready = absurd (omega arith)
process-Finished (suc fuel) defined (tree p children deque) m h ready =
    let a = after defined p children deque m ready in
    Finished-round defined p children deque m ready _ (
      process-Finished fuel defined a.0 a.1
        (omega (arith, counts defined p children deque m ready 0))
        (Ready-after defined p children deque m ready))
