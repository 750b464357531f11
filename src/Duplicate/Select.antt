-- ===== src/Duplicate/Select.antt =====
-- The context values that lib/DuplicateBB.cpp chooses.
use llvm_study.Base.{
  ℕ, zero, suc, ◌+◌, ◌≤◌, ◌<◌, ◌⊎◌, ◌≡◌, ap, true, false, ◌||◌, List, [], ◌∷◌, some, ◌==◌, ==_iff,
  length, get_or, All, arith, Bool-cases, inl, inr,
}
use mathlib.Core.Path.{subst}
use llvm_study.Containers.{address_eq, at, has}
use llvm_study.Riv.{Result, Func, DomTrees, leaf, tree, build_riv}
use llvm_study.Riv.Visit.{count}
use llvm_study.Riv.Correct.{Dominated, any_typed, any_defines, build_riv-reachable}
use package.llvm_study.Duplicate.{Queries, find_from, find_bbs_to_duplicate}

has-get_or : (xs : List ℕ) (i : ℕ) → i < length xs → has (get_or xs i 0) xs ≡ true
unfolding has
has-get_or [] i h = absurd (omega arith)
has-get_or (x ∷ xs) zero h = ground (arith, ==_iff x x)
has-get_or (x ∷ xs) (suc i) h = ground (arith, has-get_or xs i (omega arith))

-- A block to duplicate is no landing pad, and its value is reachable from it and no global.
pub record IsTarget (q : Queries) (riv : Result) (t : ℕ × ℕ) : Type 0 where
  pub reachable : has t.1 (at [] t.0 riv) ≡ true
  pub no_global : q.is_global t.1 ≡ false
  pub no_landing_pad : q.is_landing_pad t.0 ≡ false

module _ (q : Queries) (riv : Result) (in_range : (i n : ℕ) → 0 < n → q.pick i n < n) where
  find_from-All : (i : ℕ) (bs : List ℕ) → All (IsTarget q riv) (find_from q riv i bs)
  unfolding find_from
  find_from-All i [] = tt
  find_from-All i (b ∷ bs) =
      let values = at [] b riv in
      let chosen = get_or values (q.pick i (length values)) 0 in
      elim (Bool-cases (q.is_landing_pad b)) [
        | inl pad ↦ rw (pad, find_from) (find_from-All i bs)
        | inr plain ↦ elim (Bool-cases (length values == 0)) [
          | inl none_there ↦ rw (plain, none_there, find_from) (find_from-All i bs)
          | inr some_there ↦ elim (Bool-cases (q.is_global chosen)) [
            | inl global ↦ rw (plain, some_there, global, find_from) (find_from-All (i + 1) bs)
            | inr local ↦
                rw (plain, some_there, local, find_from)
                  (
                    record {
                      reachable =
                          has-get_or values (q.pick i (length values))
                            (in_range i (length values) (ground arith));
                      no_global = local;
                      no_landing_pad = plain;
                    },
                    find_from-All (i + 1) bs,
                  )
          ]
        ]
      ]

  -- With draws in their range: every block to duplicate is no landing pad, and the value chosen
  -- for it is in its set of reachable values and no global.
  pub find_bbs_to_duplicate-All :
      (bs : List ℕ) → All (IsTarget q riv) (find_bbs_to_duplicate q riv bs)
  unfolding find_bbs_to_duplicate
  find_bbs_to_duplicate-All bs = find_from-All 0 bs

-- The pair is in the list.
abbrev pub In : ℕ × ℕ → List (ℕ × ℕ) → Type 0
In t [] = ⊥
In t (u ∷ us) = (u ≡ t) ⊎ In t us

All-In : (P : ℕ × ℕ → Type 0) (t : ℕ × ℕ) (ts : List (ℕ × ℕ)) → All P ts → In t ts → P t
All-In P t [] h k = absurd k
All-In P t (u ∷ us) h (inl e) = subst P e h.0
All-In P t (u ∷ us) h (inr k) = All-In P t us h.1 k

-- With RIV's result `r` on a function with a dominator tree whose root is the entry block and
-- where no block stands twice, with draws in their range, and where every integer global counts as
-- a `GlobalValue`: the value on which the clones of a block branch is an integer argument of the
-- function, or an integer instruction of a block that strictly dominates the block.
pub context_value-dominates :
    (q : Queries) (f : Func) (children : DomTrees) (r : Result) (bs ds : List ℕ) (b v : ℕ)
    → ((i n : ℕ) → 0 < n → q.pick i n < n)
    → ((w : ℕ) → any_typed f.globals w ≡ true → q.is_global w ≡ true)
    → ((k : ℕ) → count k (tree f.entry children leaf) ≤ 1)
    → build_riv f f.entry children ≡ some r
    → In (b, v) (find_bbs_to_duplicate q r bs)
    → Dominated f.entry children ds b
    → (any_typed f.args v || any_defines f.blocks ds v) ≡ true
context_value-dominates q f children r bs ds b v in_range globals once built chosen path =
    let target =
      All-In (IsTarget q r) (b, v) (find_bbs_to_duplicate q r bs)
        (find_bbs_to_duplicate-All q r in_range bs) chosen in
    let (r', returns, holds) = build_riv-reachable f children ds b v once path in
    let same : r' ≡ r = cc in
    ground (
      arith,
      globals v,
      target.reachable,
      target.no_global,
      ap (λ (m : Result). has v (at [] b m)) same,
    )
