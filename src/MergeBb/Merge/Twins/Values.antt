-- ===== src/MergeBb/Merge/Twins/Values.antt =====
-- The value of the phi that follows two merged blocks of lib/MergeBB.cpp.
use llvm_study.Base.{
  ℕ, ◌≡◌, refl, sym, ap, ◌∙◌, Bool, true, false, List, [], ◌∷◌, ◌++◌, some, ◌==◌, ==_iff, All,
  Bool-cases, Option-cases, inl, inr, arith,
}
use mathlib.Core.Bool.{false≢true}
use mathlib.Core.Option.{some-injective}
use mathlib.Core.Path.{subst}
use llvm_study.Ir.{Value, const, local, block, global, undef, Instr, is_void}
use llvm_study.Ir.Exec.{Machine, State, value_of}
use llvm_study.Containers.{address_eq}
use llvm_study.Cfg.{Block, find_block, is_phi, incoming_value}
use llvm_study.Cfg.Uses.{num_uses, the_user, defines}
use llvm_study.Cfg.Uses.Laws.{reads, all_insts, the_user-AreUsers, the_user-reads}
use llvm_study.Cfg.Named.{All-find_block, All-and, Everywhere-only, Everywhere-and}
use llvm_study.Duplicate.Clone.Joined.{incoming_number}
use llvm_study.Duplicate.Whole.{phis_of, after_phis}
use llvm_study.MergeBb.Lockstep.Laws.{non_dbg}
use llvm_study.MergeBb.Steps.Alike.{Alike}
use package.llvm_study.MergeBb.{can_remove_inst}
use package.llvm_study.MergeBb.Merge.{phi_allows, one_phi, same_value}
use package.llvm_study.MergeBb.Merge.Twins.{IsWellFormed, AllTwins, phi_fits, is_value-some}
use package.llvm_study.MergeBb.Merge.Twins.Readers.{All-non_dbg, AreTwins, outside, successor}
use package.llvm_study.MergeBb.Merge.Twins.Hidden.{
  hidden, ReadsHidden, block-ReadsHidden, incoming_value-reads,
}
use package.llvm_study.MergeBb.Merge.Twins.Edges.{
  phis_of-All, defines-non_dbg, parent_of-defines, AreUsed, block-AreUsed, void_unused_in,
}
use package.llvm_study.MergeBb.Merge.Twins.Exec.{IsSound, SameResults}
use package.llvm_study.MergeBb.Merge.Twins.Crossing.{IsPhiFree, found-IsMeta}
use package.llvm_study.MergeBb.Merge.Twins.Phi.{phis_of-only, defined_in-local, same_value-eq}

module _ (same_operation : Instr → Instr → Bool) (sound : IsSound same_operation) (bs : List Block)
    (rules : IsWellFormed bs) (succ : ℕ) (x y : Block) (t : AreTwins same_operation bs succ x y)
    (free : IsPhiFree x.insts) (next : Block) (pn : Instr) (found : find_block succ bs ≡ some next)
    (only : phis_of next.insts ≡ pn ∷ []) where
  -- The successor has no other phi.
  phis-pn : All (λ (z : Instr). is_phi z.kind ≡ true → z ≡ pn) (all_insts next)
  phis-pn =
      phis_of-only (λ z. z ≡ pn) next.insts next.term
        (subst (λ (ps : List Instr). All (λ (z : Instr). z ≡ pn) ps) (sym only) (refl, tt))
        (All-find_block
          (λ (v : Block).
            All (λ (z : Instr). is_phi z.kind ≡ false) (after_phis v.insts ++ v.term ∷ []))
          succ bs next found rules.phis_first)

  -- An instruction of the second block that is used comes into the phi.
  second-incoming :
      (z : Instr)
      → num_uses z.id bs ≡ 1
      → can_remove_inst bs y.name z ≡ true
      → incoming_value pn y.name ≡ some (local z.id)
  unfolding can_remove_inst
  second-incoming z once removable = elim (Option-cases (the_user z.id bs)) [
    | inl e ↦ absurd (false≢true (rw (can_remove_inst, e) at removable))
    | inr (u, e) ↦
        let unread =
          (outside same_operation bs rules succ x y t z.id u
            (the_user-AreUsers z.id bs u once e)).1 in
        let user =
          the_user-reads
            (λ c w.
              (c ≡ y.name → reads w z.id ≡ false) × (c ≡ succ → is_phi w.kind ≡ true → w ≡ pn))
            z.id bs u
            (Everywhere-and (λ c w. c ≡ y.name → reads w z.id ≡ false)
              (λ c w. c ≡ succ → is_phi w.kind ≡ true → w ≡ pn) bs
              (Everywhere-only (λ w. reads w z.id ≡ false) y.name bs y t.found2 rules.named unread)
              (Everywhere-only (λ w. is_phi w.kind ≡ true → w ≡ pn) succ bs next found rules.named
                phis-pn))
            e in
        let not_here : (u.parent == y.name) ≡ false = elim (Bool-cases (u.parent == y.name)) [
          | inr e' ↦ e'
          | inl e' ↦ absurd (false≢true (sym (user.0.0 ((==_iff u.parent y.name).0 e')) ∙ user.1))
        ] in
        let test =
          rw (can_remove_inst, e, successor same_operation bs rules succ x y t y t.found2 t.to2) at
            removable in
        let fits =
          phi_fits (is_phi u.inst.kind) (succ == u.parent) _ (u.parent == y.name) test not_here in
        let this : u.inst ≡ pn = user.0.1 (sym ((==_iff succ u.parent).0 fits.1)) fits.0 in
        ap (λ (w : Instr). incoming_value w y.name) (sym this)
        ∙ is_value-some (incoming_value u.inst y.name) (local z.id) fits.2
  ]

  -- The instructions that the phi takes from the two blocks are a pair, with one result.
  twin-value :
      (xs ys : List Instr) (env1 env2 : ℕ → ℕ) (a c : ℕ)
      → AllTwins same_operation bs x.name y.name xs ys
      → All (λ (z : Instr). is_void z.ty ≡ true → num_uses z.id bs ≡ 0) xs
      → SameResults env1 env2 xs ys
      → (num_uses a bs == 0) ≡ false
      → incoming_value pn y.name ≡ some (local c)
      → defines xs a ≡ true
      → env1 a ≡ env2 c
  twin-value [] ys env1 env2 a c twins void same used k d = absurd (false≢true d)
  twin-value (z ∷ xs) [] env1 env2 a c twins void same used k d = absurd (false≢true twins)
  twin-value (z ∷ xs) (w ∷ ys) env1 env2 a c twins void same used k d =
      elim (Bool-cases (z.id == a)) [
        | inr e ↦ twin-value xs ys env1 env2 a c twins.1 void.1 same.1 used k (rw e at d)
        | inl e ↦
            let this : z.id ≡ a = (==_iff z.id a).0 e in
            let used_z : (num_uses z.id bs == 0) ≡ false =
              ap (λ (i : ℕ). num_uses i bs == 0) this ∙ used in
            let valued : is_void z.ty ≡ false = elim (Bool-cases (is_void z.ty)) [
              | inr v ↦ v
              | inl v ↦
                  absurd (false≢true (sym used_z ∙ (==_iff (num_uses z.id bs) 0).1 (void.0 v)))
            ] in
            let comes : incoming_value pn y.name ≡ some (local w.id) = elim (twins.0.second) [
              | inl unused ↦ absurd (
                  false≢true
                    (sym used_z ∙ (==_iff (num_uses z.id bs) 0).1 (twins.0.same_uses ∙ unused)))
              | inr (once, removable) ↦ second-incoming w once removable
            ] in
            let that : w.id ≡ c =
              ap (number_of w.id) (some-injective (local w.id) (local c) (sym comes ∙ k)) in
            ap env1 (sym this) ∙ same.0 valued ∙ ap env2 that
      ]
    where
      number_of : ℕ → Value → ℕ
      number_of d (local i) = i
      number_of d _ = d

  module _ (m : Machine) (s u : State m.Mem)
      (alike : Alike m (hidden same_operation bs rules succ x y t) s u)
      (same : SameResults s.env u.env (non_dbg x.insts) (non_dbg y.insts)) where
    -- One value that comes in from both blocks is hidden in neither state.
    shared-value :
        (v : Value)
        → ReadsHidden same_operation bs rules succ x y t succ pn
        → incoming_value pn x.name ≡ some v
        → incoming_value pn y.name ≡ some v
        → value_of m s.env v ≡ value_of m u.env v
    shared-value (const w n) reads_hidden e1 e2 = refl
    shared-value (block b) reads_hidden e1 e2 = refl
    shared-value (global g) reads_hidden e1 e2 = refl
    shared-value undef reads_hidden e1 e2 = refl
    shared-value (local i) reads_hidden e1 e2 =
        elim (Bool-cases (hidden same_operation bs rules succ x y t i)) [
          | inr h ↦ alike.same_env i h
          | inl h ↦ elim ((reads_hidden i h (incoming_value-reads pn x.name i e1)).2) [
            | inl (d, edge) ↦
                absurd (false≢true (sym t.differ ∙ (==_iff y.name x.name).1 (edge y.name e2)))
            | inr (d, edge) ↦
                absurd (false≢true (sym t.differ ∙ (==_iff y.name x.name).1 (sym (edge x.name e1))))
          ]
        ]

    -- The phi takes the same value from either block.
    pub phi-value :
        phi_allows bs (one_phi pn) x.name y.name ≡ true
        → incoming_number m s (incoming_value pn x.name)
          ≡ incoming_number m u (incoming_value pn y.name)
    unfolding phi_allows
    phi-value h =
        let v1 = incoming_value pn x.name in
        let v2 = incoming_value pn y.name in
        elim (Bool-cases (same_value v1 v2)) [
          | inl e ↦ elim (Option-cases v1) [
            | inl gone ↦
                ap (incoming_number m s) gone
                ∙ ap (incoming_number m u) (sym gone ∙ same_value-eq v1 v2 e)
            | inr (v, here) ↦
                let there : v2 ≡ some v = sym (same_value-eq v1 v2 e) ∙ here in
                ap (incoming_number m s) here
                ∙ shared-value v at_pn.0 here there
                ∙ ap (incoming_number m u) (sym there)
          ]
          | inr e ↦
              let (a, is_a, parent_a) = defined_in-local bs v1 x.name (ground arith) in
              let (c, is_c, parent_c) = defined_in-local bs v2 y.name (ground arith) in
              let void = void_unused_in same_operation bs rules succ x y t x.name x t.found1 in
              let used = at_pn.1 a (incoming_value-reads pn x.name a is_a) in
              let defined =
                defines-non_dbg bs a x.insts
                  (found-IsMeta same_operation sound bs rules succ x y t free x t.found1) void used
                  (parent_of-defines bs a x.name x bs t.found1 rules.named parent_a) in
              ap (incoming_number m s) is_a
              ∙ twin-value (non_dbg x.insts) (non_dbg y.insts) s.env u.env a c t.twins
                  (All-non_dbg _ x.insts void) same used is_c defined
              ∙ ap (incoming_number m u) (sym is_c)
        ]
      where
        at_pn : ReadsHidden same_operation bs rules succ x y t succ pn × AreUsed bs pn
        at_pn =
            (subst
              (λ (ps : List Instr).
                All
                  (λ (z : Instr).
                    ReadsHidden same_operation bs rules succ x y t succ z × AreUsed bs z)
                  ps)
              only
              (phis_of-All _ next.insts next.term (
                All-and _ _ (all_insts next)
                  (block-ReadsHidden same_operation bs rules succ x y t succ next found)
                  (block-AreUsed bs succ next found)))).0
