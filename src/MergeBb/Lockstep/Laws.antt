-- ===== src/MergeBb/Lockstep/Laws.antt =====
-- The lockstep loop compares the two blocks instruction by instruction.
use llvm_study.Base.{
  ℕ, zero, suc, ◌≤◌, ◌<◌, ◌≡◌, refl, sym, ap, ap₂, ◌∙◌, Bool, true, false, not, ◌&&◌, ◌||◌, List,
  [], ◌∷◌, ◌++◌, Option, some, length, if◌then◌else◌, arith, length-append, Bool-cases, inl, inr,
  ◌⊎◌,
}
use mathlib.Core.List.{reverse, reverse-append, append-nil}
use llvm_study.Ir.{Instr}
use llvm_study.Cfg.{is_dbg}
use package.llvm_study.MergeBb.Lockstep.{
  Lockstep, skip_dbg, last_non_dbg, is_null, start, retreat, run_loop, mismatch,
}

-- The instructions of a block that are no debug instructions.
abbrev pub non_dbg : List Instr → List Instr
non_dbg [] = []
non_dbg (x ∷ xs) = if is_dbg x.kind then non_dbg xs else x ∷ non_dbg xs

non_dbg-skip_dbg : (xs : List Instr) → non_dbg (skip_dbg xs) ≡ non_dbg xs
unfolding skip_dbg
non_dbg-skip_dbg [] = refl
non_dbg-skip_dbg (x ∷ xs) = ground (arith, non_dbg-skip_dbg xs)

length-skip_dbg : (xs : List Instr) → length (skip_dbg xs) ≤ length xs
unfolding skip_dbg
length-skip_dbg [] = omega arith
length-skip_dbg (x ∷ xs) = ground (arith, length-skip_dbg xs)

-- A cursor is null or points to no debug instruction.
abbrev Clean : List Instr → Type 0
Clean [] = Unit
Clean (x ∷ xs) = is_dbg x.kind ≡ false

skip_dbg-Clean : (xs : List Instr) → Clean (skip_dbg xs)
unfolding skip_dbg
skip_dbg-Clean [] = tt
skip_dbg-Clean (x ∷ xs) = elim (Bool-cases (is_dbg x.kind)) [
  | inl d ↦ rw d (skip_dbg-Clean xs)
  | inr d ↦ rw d d
]

non_dbg-append : (xs ys : List Instr) → non_dbg (xs ++ ys) ≡ non_dbg xs ++ non_dbg ys
non_dbg-append [] ys = refl
non_dbg-append (x ∷ xs) ys = ground (arith, non_dbg-append xs ys)

module _ (can_merge : Instr → Instr → Bool) where
  -- A pair that cannot be merged, before one of the lists ends.
  abbrev differ_at : List Instr → List Instr → Bool
  differ_at (x ∷ xs) (y ∷ ys) = if can_merge x y then differ_at xs ys else true
  differ_at _ _ = false

  -- As long as one another, and every pair can be merged.
  abbrev pub all_merge : List Instr → List Instr → Bool
  all_merge [] [] = true
  all_merge (x ∷ xs) (y ∷ ys) = can_merge x y && all_merge xs ys
  all_merge _ _ = false

  differ_at-nil : (xs : List Instr) → differ_at xs [] ≡ false
  differ_at-nil [] = refl
  differ_at-nil (x ∷ xs) = refl

  abbrev at_cursors : List Instr → List Instr → Lockstep
  at_cursors c1 c2 = record { cursor1 = c1; cursor2 = c2; fail = is_null c1 || is_null c2 }

  -- The loop ended, and its iterator is valid exactly when `d` holds.
  abbrev EndsWith : Option Lockstep → Bool → Type 0
  EndsWith r d = (it : Lockstep) × (r ≡ some it) × (not it.fail ≡ d)

  retreat-at_cursors :
      (x y : Instr) (xs ys : List Instr)
      → (retreat (at_cursors (x ∷ xs) (y ∷ ys)) ≡ at_cursors (skip_dbg xs) (skip_dbg ys))
        ⊎ ((skip_dbg xs ≡ []) × (retreat (at_cursors (x ∷ xs) (y ∷ ys)) ≡ at_cursors [] (y ∷ ys)))
  unfolding retreat
  retreat-at_cursors x y xs ys = by_next (skip_dbg xs) (skip_dbg ys) refl
    where
      by_next :
          (c1 c2 : List Instr)
          → skip_dbg xs ≡ c1
          → (retreat (at_cursors (x ∷ xs) (y ∷ ys)) ≡ at_cursors (skip_dbg xs) (skip_dbg ys))
            ⊎ ((skip_dbg xs ≡ [])
                × (retreat (at_cursors (x ∷ xs) (y ∷ ys)) ≡ at_cursors [] (y ∷ ys)))
      by_next [] c2 e = inr (e, rw e)
      by_next (z ∷ zs) c2 e = inl (rw e)

  run_loop-Ends :
      (fuel : ℕ) (c1 c2 : List Instr)
      → length c1 < fuel
      → Clean c1
      → Clean c2
      → EndsWith (run_loop can_merge fuel (at_cursors c1 c2)) (differ_at (non_dbg c1) (non_dbg c2))
  unfolding run_loop
  run_loop-Ends zero c1 c2 h k1 k2 = absurd (omega arith)
  run_loop-Ends (suc fuel) [] c2 h k1 k2 = (at_cursors [] c2, refl, refl)
  run_loop-Ends (suc fuel) (x ∷ xs) [] h k1 k2 =
      (at_cursors (x ∷ xs) [], refl, sym (differ_at-nil (non_dbg (x ∷ xs))))
  run_loop-Ends (suc fuel) (x ∷ xs) (y ∷ ys) h k1 k2 = elim (Bool-cases (can_merge x y)) [
    | inr differ ↦ (at_cursors (x ∷ xs) (y ∷ ys), rw differ, rw (k1, k2, differ))
    | inl merge ↦ elim (retreat-at_cursors x y xs ys) [
      | inl moved ↦
          rw (merge, k1, k2, merge, moved)
            (rw (← non_dbg-skip_dbg xs, ← non_dbg-skip_dbg ys)
              (run_loop-Ends fuel (skip_dbg xs) (skip_dbg ys) (omega (arith, length-skip_dbg xs))
                (skip_dbg-Clean xs) (skip_dbg-Clean ys)))
      | inr (ended, moved) ↦
          rw (merge, k1, k2, merge, moved)
            (rw (← non_dbg-skip_dbg xs, ended) (run_loop-Ends fuel [] (y ∷ ys) (omega arith) tt k2))
    ]
  ]

  differ_at-eq-not-all_merge :
      (xs ys : List Instr) → length xs ≡ length ys → differ_at xs ys ≡ not (all_merge xs ys)
  differ_at-eq-not-all_merge [] [] h = refl
  differ_at-eq-not-all_merge [] (y ∷ ys) h = absurd (omega arith)
  differ_at-eq-not-all_merge (x ∷ xs) [] h = absurd (omega arith)
  differ_at-eq-not-all_merge (x ∷ xs) (y ∷ ys) h =
      ground (arith, differ_at-eq-not-all_merge xs ys (omega arith))

  all_merge-snoc :
      (xs ys : List Instr) (x y : Instr)
      → length xs ≡ length ys
      → all_merge (xs ++ x ∷ []) (ys ++ y ∷ []) ≡ (can_merge x y && all_merge xs ys)
  all_merge-snoc [] [] x y h = refl
  all_merge-snoc [] (b ∷ ys) x y h = absurd (omega arith)
  all_merge-snoc (a ∷ xs) [] x y h = absurd (omega arith)
  all_merge-snoc (a ∷ xs) (b ∷ ys) x y h = ground (arith, all_merge-snoc xs ys x y (omega arith))

  length-reverse : (xs : List Instr) → length (reverse xs) ≡ length xs
  length-reverse [] = refl
  length-reverse (x ∷ xs) =
      ap (λ (l : List Instr). length l) (reverse-append (x ∷ []) xs)
      ∙ length-append (reverse xs) (x ∷ [])
      ∙ omega (arith, length-reverse xs)

  all_merge-reverse :
      (xs ys : List Instr)
      → length xs ≡ length ys
      → all_merge (reverse xs) (reverse ys) ≡ all_merge xs ys
  all_merge-reverse [] [] h = refl
  all_merge-reverse [] (y ∷ ys) h = absurd (omega arith)
  all_merge-reverse (x ∷ xs) [] h = absurd (omega arith)
  all_merge-reverse (x ∷ xs) (y ∷ ys) h =
      ap₂ all_merge (reverse-append (x ∷ []) xs) (reverse-append (y ∷ []) ys)
      ∙ all_merge-snoc (reverse xs) (reverse ys) x y
          (omega (arith, length-reverse xs, length-reverse ys))
      ∙ ap (λ (r : Bool). can_merge x y && r) (all_merge-reverse xs ys (omega arith))

  non_dbg-reverse : (xs : List Instr) → non_dbg (reverse xs) ≡ reverse (non_dbg xs)
  non_dbg-reverse [] = refl
  non_dbg-reverse (x ∷ xs) =
      ap (λ (l : List Instr). non_dbg l) (reverse-append (x ∷ []) xs)
      ∙ non_dbg-append (reverse xs) (x ∷ [])
      ∙ elim (Bool-cases (is_dbg x.kind)) [
        | inl e ↦ rw e (append-nil (non_dbg (reverse xs)) ∙ non_dbg-reverse xs)
        | inr e ↦ rw e (
            ap (λ (l : List Instr). l ++ x ∷ []) (non_dbg-reverse xs)
            ∙ sym (reverse-append (x ∷ []) (non_dbg xs)))
      ]

  -- The loop ends, and for blocks with as many non-debug instructions it reports a mismatch
  -- exactly when some pair of them, in their order, cannot be merged.
  pub mismatch-all_merge :
      (insts1 insts2 : List Instr)
      → length (non_dbg insts1) ≡ length (non_dbg insts2)
      → mismatch can_merge insts1 insts2 ≡ some (not (all_merge (non_dbg insts1) (non_dbg insts2)))
  unfolding mismatch start last_non_dbg
  mismatch-all_merge insts1 insts2 h =
      let c1 = skip_dbg (reverse insts1) in
      let c2 = skip_dbg (reverse insts2) in
      let (it, ends, valid) =
        run_loop-Ends (suc (length insts1)) c1 c2
          (omega (arith, length-skip_dbg (reverse insts1), length-reverse insts1))
          (skip_dbg-Clean (reverse insts1)) (skip_dbg-Clean (reverse insts2)) in
      let same =
        differ_at-eq-not-all_merge (reverse (non_dbg insts1)) (reverse (non_dbg insts2))
          (omega (arith, length-reverse (non_dbg insts1), length-reverse (non_dbg insts2))) in
      rw
        (
          ends,
          mismatch,
          valid,
          non_dbg-skip_dbg (reverse insts1),
          non_dbg-skip_dbg (reverse insts2),
        )
        (rw (non_dbg-reverse insts1, non_dbg-reverse insts2, same)
          (ap (λ (b : Bool). some (not b)) (all_merge-reverse (non_dbg insts1) (non_dbg insts2) h)))
