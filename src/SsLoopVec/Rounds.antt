-- ===== src/SsLoopVec/Rounds.antt =====
-- The four sums that the vectorised loop of `DoImpl` keeps, and the blocks that the pass sets.
use llvm_study.Base.{
  ℕ, ◌+◌, ◌*◌, ◌%◌, ◌^◌, ◌<◌, ◌≡◌, refl, sym, ap, ap₂, ◌∙◌, true, false, List, [], ◌∷◌, some, ◌==◌,
  arith, Bool-cases, inl, inr,
}
use mathlib.Core.Option.{none-ne-some}
use native.Mathlib.Nat.{add-mod}
use package.llvm_study.SsLoopVec.{value, Inst, Block, find_block, set_insts, insts_of, sum_up}
use package.llvm_study.SsLoopVec.Exec.{Machine, State, in_range, exec_all}
use package.llvm_study.SsLoopVec.Sum.{sum_up-mem, lane_sum, total, total-lanes}

abbrev pub IsThere : ℕ → List Block → Type 0
IsThere b bs = (x : Block) × (find_block b bs ≡ some x)

pub insts_of-set_same :
    (b : ℕ) (xs : List Inst) (bs : List Block) → IsThere b bs → insts_of b (set_insts b xs bs) ≡ xs
unfolding find_block set_insts
insts_of-set_same b xs [] h = absurd (none-ne-some h.0 h.1)
insts_of-set_same b xs (z ∷ zs) h = elim (Bool-cases (z.name == b)) [
  | inl q ↦ rw (insts_of, q, q) refl
  | inr q ↦ rw (insts_of, q, q) (insts_of-set_same b xs zs (h.0, rw q at h.1))
]

pub insts_of-set_other :
    (b c : ℕ) (xs : List Inst) (bs : List Block)
    → (b == c) ≡ false
    → insts_of b (set_insts c xs bs) ≡ insts_of b bs
unfolding find_block set_insts
insts_of-set_other b c xs [] ne = refl
insts_of-set_other b c xs (z ∷ zs) ne = elim (Bool-cases (z.name == c)) [
  | inl q ↦
      let not_b : (z.name == b) ≡ false = ground (arith, ne, q) in
      rw (insts_of, q, not_b) (insts_of-set_other b c xs zs ne)
  | inr q ↦ elim (Bool-cases (z.name == b)) [
    | inl q' ↦ rw (insts_of, q, q') refl
    | inr q' ↦ rw (insts_of, q, q') (insts_of-set_other b c xs zs ne)
  ]
]

pub IsThere-set :
    (b c : ℕ) (xs : List Inst) (bs : List Block) → IsThere b bs → IsThere b (set_insts c xs bs)
unfolding find_block set_insts
IsThere-set b c xs [] h = absurd (none-ne-some h.0 h.1)
IsThere-set b c xs (z ∷ zs) h = elim (Bool-cases (z.name == b)) [
  | inl q ↦ elim (Bool-cases (z.name == c)) [
    | inl q' ↦ rw (q', q) (record z { insts = xs }, refl)
    | inr q' ↦ rw (q', q) (z, refl)
  ]
  | inr q ↦ elim (Bool-cases (z.name == c)) [
    | inl q' ↦ rw (q', q) (IsThere-set b c xs zs (h.0, rw q at h.1))
    | inr q' ↦ rw (q', q) (IsThere-set b c xs zs (h.0, rw q at h.1))
  ]
]

four-mod :
    (a b c d : ℕ)
    → ((a % 2 ^ 32 + b % 2 ^ 32) % 2 ^ 32 + (c % 2 ^ 32 + d % 2 ^ 32) % 2 ^ 32) % 2 ^ 32
      ≡ (a + b + c + d) % 2 ^ 32
four-mod a b c d =
    ap₂ (λ (x y : ℕ). (x + y) % 2 ^ 32) (sym (add-mod a b (2 ^ 32))) (sym (add-mod c d (2 ^ 32)))
    ∙ sym (add-mod (a + b) (c + d) (2 ^ 32))
    ∙ ap (λ (q : ℕ). q % 2 ^ 32) (omega arith)

in_range_self : (p : ℕ) → in_range p 1 p ≡ true
in_range_self p = ground arith

-- The sum of the four elements of the alloca, where they are the sums of the lanes after `k` rounds.
pub lanes-total :
    (m : Machine) (tmp k k' p : ℕ) (x : ℕ → ℕ) (v : State)
    → tmp < k'
    → p < k'
    → ((j : ℕ) → j < 4 → v.mem (v.env tmp 0 + j) ≡ lane_sum x j k % 2 ^ 32)
    → (exec_all m (sum_up k' tmp (value p)) v).mem (v.env p 0) ≡ total x (4 * k) % 2 ^ 32
lanes-total m tmp k k' p x v ht hp lane =
    let parts = four-mod (lane_sum x 0 k) (lane_sum x 1 k) (lane_sum x 2 k) (lane_sum x 3 k) in
    sum_up-mem m k' tmp p v (v.env p 0) ht hp
    ∙ rw
        (
          in_range_self (v.env p 0),
          lane 0 (omega arith),
          lane 1 (omega arith),
          lane 2 (omega arith),
          lane 3 (omega arith),
        )
        (parts ∙ ap (λ (q : ℕ). q % 2 ^ 32) (sym (total-lanes x k)))
