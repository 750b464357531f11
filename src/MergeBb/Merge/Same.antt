-- ===== src/MergeBb/Merge/Same.antt =====
-- One merge of lib/MergeBB.cpp: the function takes the same steps before and after it.
pub mod Steps
pub mod Observed
use llvm_study.Base.{
  ℕ, zero, suc, ◌≡◌, refl, sym, ap, ◌∙◌, Bool, true, false, not, ◌&&◌, ◌||◌, List, [], ◌∷◌, ◌++◌,
  map, Option, none, some, ◌==◌, ==_iff, if◌then◌else◌, All, Bool-cases, Option-cases, inl, inr,
  ◌⊎◌, arith,
}
use mathlib.Core.Bool.{false≢true}
use mathlib.Core.Option.{none-ne-some, some-injective}
use mathlib.Core.Path.{subst}
use llvm_study.Ir.{Value, local, block, Kind, br, other_terminator, Instr}
use llvm_study.Ir.Exec.{Machine, State, value_of, exec_all}
use llvm_study.Containers.{address_eq, has}
use llvm_study.Cfg.{
  Block, value_eq, find_block, is_br_or_switch, branches_to, unconditional_target, mentions,
}
use llvm_study.Cfg.Named.{All-find_block, find_block-name}
use llvm_study.Duplicate.Clone.Joined.{enter_phis}
use llvm_study.Duplicate.Whole.{phis_of, after_phis}
use llvm_study.MergeBb.Steps.{
  Exit, enters, leaves, unknown, exit_of, Config, Next, goes_on, ends_with, stuck, run_block,
  next_of, step, steps,
}
use llvm_study.MergeBb.Steps.Alike.{
  Unread, shown, Alike, Alike-weaken, values-Alike, exec_all-Alike, PhisAgree, enter_phis-Alike,
}
use package.llvm_study.MergeBb.Merge.{retarget_block, replace_bb, preds_branch, phi_allows, one_phi}
use package.llvm_study.MergeBb.Merge.Retarget.{Listed}
use package.llvm_study.MergeBb.Merge.Redirect.{
  redirect, redirect_exit, exit_of-retarget_block, find_block-replace_bb,
  find_block-replace_bb-none, preds_branch-listed,
}
use package.llvm_study.MergeBb.Merge.Twins.{IsWellFormed}
use package.llvm_study.MergeBb.Merge.Twins.Readers.{AreTwins, All-but_last, unconditional-br}
use package.llvm_study.MergeBb.Merge.Twins.Hidden.{hidden, block-Unread}
use package.llvm_study.MergeBb.Merge.Twins.Edges.{edge-PhisAgree}
use package.llvm_study.MergeBb.Merge.Twins.Exec.{IsSilent, IsSound}
use package.llvm_study.MergeBb.Merge.Twins.Crossing.{
  IsPhiFree, after_phis-free, phis_of-free, second-IsPhiFree, cross-exec,
}
use package.llvm_study.MergeBb.Merge.Twins.Values.{phi-value}

-- A terminator that reads no hidden value leads to the same place.
pub exit_of-Alike :
    (m : Machine) (hidden : ℕ → Bool) (s u : State m.Mem) (k : Kind) (vs : List Value)
    → Alike m hidden s u
    → Unread hidden vs
    → exit_of m s.env k vs ≡ exit_of m u.env k vs
unfolding exit_of value_eq
exit_of-Alike m hidden s u (other_terminator k) vs a h =
    ap (leaves k) (values-Alike m hidden s u vs a h)
exit_of-Alike m hidden s u br (local c ∷ block succ1 ∷ block succ0 ∷ []) a h =
    ap (λ (n : ℕ). if n == 0 then enters succ1 else enters succ0)
      (a.same_env c (elim (Bool-cases (hidden c)) [
        | inl e ↦ absurd (false≢true (sym (h c e) ∙ ground (arith, ==_iff c c)))
        | inr e ↦ e
      ]))
exit_of-Alike m hidden s u _ _ a h = refl

-- What two steps come to, for a relation between configurations.
abbrev pub AgreeNext :
    (m : Machine) → (Config m.Mem → Config m.Mem → Type 0) → Next m.Mem → Next m.Mem → Type 0
AgreeNext m R (goes_on c) (goes_on d) = R c d
AgreeNext m R (ends_with k vs mem) (ends_with l ws mem') = (k ≡ l) × (vs ≡ ws) × (mem ≡ mem')
AgreeNext m R stuck stuck = Unit
AgreeNext m R _ _ = false ≡ true

module _ (same_operation : Instr → Instr → Bool) (sound : IsSound same_operation) (bs : List Block)
    (rules : IsWellFormed bs) (succ : ℕ) (x y : Block) (t : AreTwins same_operation bs succ x y)
    (free : IsPhiFree x.insts) (m : Machine) (silent : IsSilent m) where
  abbrev hides : ℕ → Bool
  hides = hidden same_operation bs rules succ x y t

  -- The configuration of the function before the merge, and that of the one after it.
  pub record Related (c d : Config m.Mem) : Type 0 where
    pub at_same : d.at ≡ redirect x.name y.name c.at
    pub alike : Alike m hides c.state d.state
    pub phis :
        (w : Block)
        → find_block c.at bs ≡ some w
        → PhisAgree m c.from d.from c.state d.state (phis_of w.insts)

  module _ (ps : List ℕ) (listed : Listed x.name ps bs) (branch : preds_branch bs ps ≡ true) where
    abbrev pub merged : List Block
    merged = replace_bb ps x.name y.name bs

    pub found-merged :
        (b : ℕ) (w : Block)
        → find_block b bs ≡ some w
        → find_block b merged ≡ some (retarget_block x.name y.name w)
    found-merged b w found = find_block-replace_bb b x.name y.name ps bs w t.differ found (λ r.
        ap (λ (c : ℕ). has c ps) (sym (find_block-name b bs w found))
        ∙ All-find_block (λ (v : Block). branches_to v x.name ≡ true → has v.name ps ≡ true) b bs w
            found listed r)

    pub exit-merged :
        (b : ℕ) (w : Block) (env : ℕ → ℕ)
        → find_block b bs ≡ some w
        → exit_of m env
            (retarget_block x.name y.name w).term.kind
            (retarget_block x.name y.name w).term.operands
          ≡ redirect_exit x.name y.name (exit_of m env w.term.kind w.term.operands)
    exit-merged b w env found = exit_of-retarget_block m env x.name y.name w (λ r.
        preds_branch-listed bs w.name w ps branch
          (ap (λ (c : ℕ). find_block c bs) (find_block-name b bs w found) ∙ found)
          (All-find_block (λ (v : Block). branches_to v x.name ≡ true → has v.name ps ≡ true) b bs w
            found listed r))

    -- A block that stays.
    pub run-Alike :
        (b : ℕ) (w : Block) (c d : Config m.Mem)
        → find_block b bs ≡ some w
        → Alike m hides c.state d.state
        → PhisAgree m c.from d.from c.state d.state (phis_of w.insts)
        → Alike m
            (shown m hides (after_phis w.insts))
            (run_block m c.from w.insts c.state)
            (run_block m d.from w.insts d.state)
    run-Alike b w c d found a agree =
        exec_all-Alike m hides (enter_phis m c.from c.state (phis_of w.insts) c.state)
          (enter_phis m d.from d.state (phis_of w.insts) d.state) (after_phis w.insts)
          (enter_phis-Alike m hides c.from d.from c.state d.state c.state d.state (phis_of w.insts)
            a agree)
          (All-but_last _ (after_phis w.insts) w.term
            (block-Unread same_operation bs rules succ x y t b w found))

    pub term-Unread : (b : ℕ) (w : Block) → find_block b bs ≡ some w → Unread hides w.term.operands
    term-Unread b w found =
        last-of (after_phis w.insts) (block-Unread same_operation bs rules succ x y t b w found)
      where
        last-of :
            (zs : List Instr)
            → All (λ (z : Instr). Unread hides z.operands) (zs ++ w.term ∷ [])
            → Unread hides w.term.operands
        last-of [] h = h.0
        last-of (z ∷ zs) h = last-of zs h.1

    -- The step from a block that stays, once it has run.
    pub next-Related :
        (b : ℕ) (w : Block) (s u : State m.Mem) (e : Exit)
        → find_block b bs ≡ some w
        → (b == x.name) ≡ false
        → Alike m (shown m hides (after_phis w.insts)) s u
        → AgreeNext m Related (next_of m b s e) (next_of m b u (redirect_exit x.name y.name e))
    next-Related b w s u (enters c) found other a = record {
      at_same = refl;
      alike = Alike-weaken m _ hides s u (λ i h. ground (arith, h)) a;
      phis = λ next found_next.
          edge-PhisAgree same_operation bs rules succ x y t m s u b c w next found found_next other
            (after_phis-free y.insts
              (second-IsPhiFree same_operation sound bs rules succ x y t free))
            a;
    }
    next-Related b w s u (leaves k vs) found other a = (refl, refl, a.same_mem)
    next-Related b w s u unknown found other a = tt
