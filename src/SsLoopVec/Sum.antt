-- ===== src/SsLoopVec/Sum.antt =====
-- What a vectorised loop adds up: its rounds, and the sum of the four elements after it.
use llvm_study.Base.{
  ℕ, zero, suc, ◌+◌, ◌*◌, ◌-◌, ◌%◌, ◌^◌, ◌<◌, ◌≡◌, refl, ap, ap₂, ◌∙◌, false, List, [], ◌∷◌, ◌==◌,
  ==_iff, if◌then◌else◌, arith,
}
use package.llvm_study.SsLoopVec.{
  add, value, Inst, bit_cast_of, load_of, accumulate, extract_of, add_of, sum_up,
}
use package.llvm_study.SsLoopVec.Exec.{Machine, State, define, in_range, exec, exec_all}

-- The casts of the GetElementPtr `g` and the accumulation into the alloca `tmp`, as they are numbered
-- where one load uses `g`.
abbrev pub round : ℕ → ℕ → ℕ → List Inst
round n g tmp = bit_cast_of n g ∷ load_of (n + 1) n ∷ accumulate (n + 2) (n + 1) tmp

pub env-defined : (id : ℕ) (v : ℕ → ℕ) (s : State) → (define id v s).env id ≡ v
env-defined id v s = rw ((==_iff id id).1 refl) refl

pub env-other : (i id : ℕ) (v : ℕ → ℕ) (s : State) → i < id → (define id v s).env i ≡ s.env i
env-other i id v s h = rw (below i id h) refl
  where
    below : (a b : ℕ) → a < b → (a == b) ≡ false
    below a b h = ground (arith, h)

-- The lanes of a sum.
abbrev added : (ℕ → ℕ) → (ℕ → ℕ) → ℕ → ℕ
added x y j = (x j + y j) % 2 ^ 32

module _ (m : Machine) where
  pub round-mem :
      (n g tmp : ℕ) (s : State) (a : ℕ)
      → g < n
      → tmp < n
      → (exec_all m (round n g tmp) s).mem a ≡ (
          if in_range (s.env tmp 0) 4 a
          then (s.mem (s.env tmp 0 + (a - s.env tmp 0)) + s.mem (s.env g 0 + (a - s.env tmp 0)))
            % 2 ^ 32
          else s.mem a)
  unfolding exec_all exec
  round-mem n g tmp s a hg ht =
      let s1 = exec m (bit_cast_of n g) s in
      let s2 = exec m (load_of (n + 1) n) s1 in
      let s3 = exec m (load_of (n + 2) tmp) s2 in
      let s4 =
        exec m
          (record {
            id = n + 2 + 1;
            opcode = add;
            lanes = 4;
            operands = value (n + 2) ∷ value (n + 1) ∷ [];
          })
          s3 in
      let loads = λ (v : ℕ → ℕ). let w : ℕ → ℕ = λ j. s.mem (v 0 + j) in w in
      let tmp1 : s1.env tmp ≡ s.env tmp = env-other tmp n _ s ht in
      let tmp2 : s2.env tmp ≡ s.env tmp = env-other tmp (n + 1) _ s1 (omega arith) ∙ tmp1 in
      let tmp3 : s3.env tmp ≡ s.env tmp = env-other tmp (n + 2) _ s2 (omega arith) ∙ tmp2 in
      let tmp4 : s4.env tmp ≡ s.env tmp = env-other tmp (n + 2 + 1) _ s3 (omega arith) ∙ tmp3 in
      let elements2 : s2.env (n + 1) ≡ loads (s.env g) =
        env-defined (n + 1) _ s1 ∙ ap loads (env-defined n _ s) in
      let elements3 : s3.env (n + 1) ≡ loads (s.env g) =
        env-other (n + 1) (n + 2) _ s2 (omega arith) ∙ elements2 in
      let sums3 : s3.env (n + 2) ≡ loads (s.env tmp) = env-defined (n + 2) _ s2 ∙ ap loads tmp2 in
      let sums4 : s4.env (n + 2 + 1) ≡ added (loads (s.env tmp)) (loads (s.env g)) =
        env-defined (n + 2 + 1) _ s3 ∙ ap₂ added sums3 elements3 in
      ap₂ (λ (t v : ℕ → ℕ). if in_range (t 0) 4 a then v (a - t 0) else s.mem a) tmp4 sums4

  pub round-env :
      (n g tmp i : ℕ) (s : State) → i < n → (exec_all m (round n g tmp) s).env i ≡ s.env i
  unfolding exec_all exec
  round-env n g tmp i s h =
      let s1 = exec m (bit_cast_of n g) s in
      let s2 = exec m (load_of (n + 1) n) s1 in
      let s3 = exec m (load_of (n + 2) tmp) s2 in
      env-other i (n + 2 + 1) _ s3 (omega (arith, h))
      ∙ env-other i (n + 2) _ s2 (omega (arith, h))
      ∙ env-other i (n + 1) _ s1 (omega (arith, h))
      ∙ env-other i n _ s h

  pub sum_up-mem :
      (n tmp p : ℕ) (s : State) (a : ℕ)
      → tmp < n
      → p < n
      → (exec_all m (sum_up n tmp (value p)) s).mem a ≡ (
          if in_range (s.env p 0) 1 a
          then ((s.mem (s.env tmp 0 + 0) + s.mem (s.env tmp 0 + 1)) % 2 ^ 32
              + (s.mem (s.env tmp 0 + 2) + s.mem (s.env tmp 0 + 3)) % 2 ^ 32)
            % 2 ^ 32
          else s.mem a)
  unfolding exec_all exec sum_up
  sum_up-mem n tmp p s a ht hp =
      let l : ℕ → ℕ = λ j. s.mem (s.env tmp 0 + j) in
      let s1 = exec m (load_of n tmp) s in
      let s2 = exec m (extract_of (n + 1) n 0) s1 in
      let s3 = exec m (extract_of (n + 2) n 1) s2 in
      let s4 = exec m (add_of (n + 3) (n + 1) (n + 2)) s3 in
      let s5 = exec m (extract_of (n + 4) n 2) s4 in
      let s6 = exec m (extract_of (n + 5) n 3) s5 in
      let s7 = exec m (add_of (n + 6) (n + 4) (n + 5)) s6 in
      let s8 = exec m (add_of (n + 7) (n + 3) (n + 6)) s7 in
      let lane = λ (i : ℕ) (v : ℕ → ℕ). let w : ℕ → ℕ = λ j. v i in w in
      let v1 : s1.env n ≡ l = env-defined n _ s in
      let v2 : s2.env n ≡ l = env-other n (n + 1) _ s1 (omega arith) ∙ v1 in
      let v3 : s3.env n ≡ l = env-other n (n + 2) _ s2 (omega arith) ∙ v2 in
      let v4 : s4.env n ≡ l = env-other n (n + 3) _ s3 (omega arith) ∙ v3 in
      let v5 : s5.env n ≡ l = env-other n (n + 4) _ s4 (omega arith) ∙ v4 in
      let first : s3.env (n + 1) ≡ lane 0 l =
        env-other (n + 1) (n + 2) _ s2 (omega arith) ∙ env-defined (n + 1) _ s1 ∙ ap (lane 0) v1 in
      let second : s3.env (n + 2) ≡ lane 1 l = env-defined (n + 2) _ s2 ∙ ap (lane 1) v2 in
      let third : s6.env (n + 4) ≡ lane 2 l =
        env-other (n + 4) (n + 5) _ s5 (omega arith) ∙ env-defined (n + 4) _ s4 ∙ ap (lane 2) v4 in
      let fourth : s6.env (n + 5) ≡ lane 3 l = env-defined (n + 5) _ s5 ∙ ap (lane 3) v5 in
      let low : s7.env (n + 3) ≡ added (lane 0 l) (lane 1 l) =
        env-other (n + 3) (n + 6) _ s6 (omega arith)
        ∙ env-other (n + 3) (n + 5) _ s5 (omega arith)
        ∙ env-other (n + 3) (n + 4) _ s4 (omega arith)
        ∙ env-defined (n + 3) _ s3
        ∙ ap₂ added first second in
      let high : s7.env (n + 6) ≡ added (lane 2 l) (lane 3 l) =
        env-defined (n + 6) _ s6 ∙ ap₂ added third fourth in
      let sum : s8.env (n + 7) ≡ added (added (lane 0 l) (lane 1 l)) (added (lane 2 l) (lane 3 l)) =
        env-defined (n + 7) _ s7 ∙ ap₂ added low high in
      let pointer : s8.env p ≡ s.env p =
        env-other p (n + 7) _ s7 (omega arith)
        ∙ env-other p (n + 6) _ s6 (omega arith)
        ∙ env-other p (n + 5) _ s5 (omega arith)
        ∙ env-other p (n + 4) _ s4 (omega arith)
        ∙ env-other p (n + 3) _ s3 (omega arith)
        ∙ env-other p (n + 2) _ s2 (omega arith)
        ∙ env-other p (n + 1) _ s1 (omega arith)
        ∙ env-other p n _ s hp in
      ap₂ (λ (t v : ℕ → ℕ). if in_range (t 0) 1 a then v (a - t 0) else s.mem a) pointer sum

-- The sum of every fourth element from `j` on, over `k` rounds, and of the first `k` elements.
abbrev pub lane_sum : (ℕ → ℕ) → ℕ → ℕ → ℕ
lane_sum x j zero = 0
lane_sum x j (suc k) = lane_sum x j k + x (4 * k + j)

abbrev pub total : (ℕ → ℕ) → ℕ → ℕ
total x zero = 0
total x (suc k) = total x k + x k

pub total-lanes :
    (x : ℕ → ℕ) (k : ℕ)
    → total x (4 * k) ≡ lane_sum x 0 k + lane_sum x 1 k + lane_sum x 2 k + lane_sum x 3 k
total-lanes x zero = refl
total-lanes x (suc k) =
    ap (total x) (four k)
    ∙ omega (
      arith,
      total-lanes x k,
      ap x (plus0 (4 * k)),
      ap x (plus1 (4 * k)),
      ap x (plus2 (4 * k)),
      ap x (plus3 (4 * k)),
    )
  where
    four : (k : ℕ) → 4 * suc k ≡ suc (suc (suc (suc (4 * k))))
    four k = omega arith

    plus0 : (k : ℕ) → k + 0 ≡ k
    plus0 k = omega arith

    plus1 : (k : ℕ) → k + 1 ≡ suc k
    plus1 k = omega arith

    plus2 : (k : ℕ) → k + 2 ≡ suc (suc k)
    plus2 k = omega arith

    plus3 : (k : ℕ) → k + 3 ≡ suc (suc (suc k))
    plus3 k = omega arith
