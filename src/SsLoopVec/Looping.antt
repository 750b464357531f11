-- ===== src/SsLoopVec/Looping.antt =====
-- What the rounds of the loop that `DoImpl` leaves add up, on a loop that counts in memory.
use llvm_study.Base.{
  ℕ, zero, suc, ◌+◌, ◌*◌, ◌-◌, ◌%◌, ◌^◌, ◌<◌, ◌≡◌, refl, sym, ap, ap₂, ◌∙◌, Bool, true, false, List,
  [], ◌∷◌, ◌++◌, ◌==◌, ==_iff, if◌then◌else◌, All, arith, Bool-cases, inl, inr, append_assoc,
}
use mathlib.Core.Bool.{false≢true}
use mathlib.Core.Path.{subst}
use native.Mathlib.Nat.{mod-add-mod}
use llvm_study.Containers.{address_eq}
use package.llvm_study.SsLoopVec.{Inst, is_phi, scale_step, alloca_zero, insert_front}
use package.llvm_study.SsLoopVec.Exec.{Machine, State, in_range, exec_all}
use package.llvm_study.SsLoopVec.Counted.{
  count_up, exec_all-append, rounds, counted-mem, counted-env, alloca_zero-mem, alloca_zero-env,
  insert_front-append,
}
use package.llvm_study.SsLoopVec.Sum.{round, round-mem, round-env, lane_sum}

-- The memory is that of `s`, but for the cell `c` and the four cells from `t` on.
abbrev pub SameBut : ℕ → ℕ → State → State → Type 0
SameBut c t s u = (a : ℕ) → (a == c) ≡ false → in_range t 4 a ≡ false → u.mem a ≡ s.mem a

-- The values that the loop does not compute are those of `s`.
abbrev pub SameOuter : (ℕ → Bool) → State → State → Type 0
SameOuter outer s u = (i : ℕ) → outer i ≡ true → u.env i ≡ s.env i

-- A loop as it is before the pass, entered in the state `s`, in a function with `n` as its first free
-- number: its counter is in the cell `c`, to which `ptr` points, and starts at 0; the step block adds
-- one to it; the GetElementPtr points to the element of the counter's number, from `base` on; and the
-- entry block, the header and the body up to the GetElementPtr write nowhere else. An alloca with the
-- number `n` is apart from the counter.
pub record IsCounted (m : Machine) (outer : ℕ → Bool) (entry header before inc : List Inst)
    (gep : Inst) (n ptr c base : ℕ) (s : State) : Type 0 where
  pub old : ℕ
  pub new : ℕ
  pub id : ℕ
  pub counts : inc ≡ count_up old new id ptr
  pub outer_old : outer old ≡ false
  pub outer_new : outer new ≡ false
  pub outer_ptr : outer ptr ≡ true
  pub outer_tmp : outer n ≡ true
  pub below : (i : ℕ) → outer i ≡ true → i < n + 2
  pub small_gep : gep.id < n + 2
  pub no_phi : All (λ (x : Inst). is_phi x.opcode ≡ false) entry
  -- the entry block
  pub starts :
      (u : State)
      → ((exec_all m entry u).env ptr 0 ≡ c)
        × ((exec_all m entry u).mem c ≡ 0)
        × ((exec_all m entry u).env n ≡ u.env n)
  pub leaves_sums :
      (u : State) (a : ℕ) → in_range (m.place n) 4 a ≡ true → (exec_all m entry u).mem a ≡ u.mem a
  -- the header and the body, in states of the loop
  pub header_mem : (u : State) (a : ℕ) → (exec_all m header u).mem a ≡ u.mem a
  pub header_outer : (u : State) → SameOuter outer u (exec_all m header u)
  pub body_mem : (u : State) (a : ℕ) → (exec_all m (before ++ gep ∷ []) u).mem a ≡ u.mem a
  pub body_outer : (u : State) → SameOuter outer u (exec_all m (before ++ gep ∷ []) u)
  pub element :
      (u : State)
      → let s0 = exec_all m entry (exec_all m (alloca_zero n) s) in
        SameOuter outer s0 u
        → SameBut c (m.place n) s0 u
        → (exec_all m (before ++ gep ∷ []) u).env gep.id 0 ≡ base + u.mem c
  pub apart : in_range (m.place n) 4 c ≡ false

module _ (m : Machine) (outer : ℕ → Bool) (entry header before inc : List Inst) (gep : Inst)
    (n ptr c base : ℕ) (s : State)
    (h : IsCounted m outer entry header before inc gep n ptr c base s) where
  abbrev pub entered : State
  entered = exec_all m (insert_front (alloca_zero n) entry) s

  abbrev t : ℕ
  t = m.place n

  abbrev s0 : State
  s0 = exec_all m entry (exec_all m (alloca_zero n) s)

  entered-split : entered ≡ s0
  entered-split =
      ap (λ l. exec_all m l s) (insert_front-append (alloca_zero n) entry h.no_phi)
      ∙ exec_all-append m (alloca_zero n) entry s

  abbrev x : ℕ → ℕ
  x i = s0.mem (base + i)

  -- After `k` rounds.
  record Added (k : ℕ) (u : State) : Type 0 where
    same_outer : SameOuter outer s0 u
    same_but : SameBut c t s0 u
    counter : u.mem c ≡ 4 * k
    lanes : (j : ℕ) → j < 4 → u.mem (t + j) ≡ lane_sum x j k % 2 ^ 32

  in_own : (j : ℕ) → j < 4 → in_range t 4 (t + j) ≡ true
  in_own j lt = ground (arith, lt)

  start-Added : Added 0 s0
  start-Added = record {
    same_outer = λ i o. refl;
    same_but = λ a ne out. refl;
    counter = (h.starts (exec_all m (alloca_zero n) s)).1;
    lanes = λ j lt.
        h.leaves_sums (exec_all m (alloca_zero n) s) (t + j) (in_own j lt)
        ∙ alloca_zero-mem m n (t + j) s (in_own j lt);
  }

  abbrev body : List Inst
  body = before ++ gep ∷ round (n + 2) gep.id n

  body-split :
      (u : State)
      → exec_all m body u ≡ exec_all m (round (n + 2) gep.id n) (exec_all m (before ++ gep ∷ []) u)
  body-split u =
      ap (λ l. exec_all m l u) (sym (append_assoc before (gep ∷ []) (round (n + 2) gep.id n)))
      ∙ exec_all-append m (before ++ gep ∷ []) (round (n + 2) gep.id n) u

  outer_other : (i j : ℕ) → outer i ≡ true → outer j ≡ false → (i == j) ≡ false
  outer_other i j o p = elim (Bool-cases (i == j)) [
    | inl e ↦ absurd (false≢true (sym p ∙ ap outer (sym ((==_iff i j).0 e)) ∙ o))
    | inr e ↦ e
  ]

  own_cell : (a : ℕ) → in_range c 1 a ≡ (a == c)
  own_cell a = ground arith

  module _ (k : ℕ) (u : State) (g : Added k u) (small : 4 * k + 4 < 2 ^ 32)
      (elements : (i : ℕ)
        → i < 4 * k + 4
        → (in_range t 4 (base + i) ≡ false) × (((base + i) == c) ≡ false)) where
    abbrev u1 : State
    u1 = exec_all m header u

    abbrev u2 : State
    u2 = exec_all m (before ++ gep ∷ []) u1

    abbrev u3 : State
    u3 = exec_all m (round (n + 2) gep.id n) u2

    abbrev u4 : State
    u4 = exec_all m (scale_step 0 inc) u3

    u1-SameOuter : SameOuter outer s0 u1
    u1-SameOuter i o = h.header_outer u i o ∙ g.same_outer i o

    u2-SameOuter : SameOuter outer s0 u2
    u2-SameOuter i o = h.body_outer u1 i o ∙ u1-SameOuter i o

    u3-SameOuter : SameOuter outer s0 u3
    u3-SameOuter i o = round-env m (n + 2) gep.id n i u2 (h.below i o) ∙ u2-SameOuter i o

    u2_mem : (a : ℕ) → u2.mem a ≡ u.mem a
    u2_mem a = h.body_mem u1 a ∙ h.header_mem u a

    u2_tmp : u2.env n 0 ≡ t
    u2_tmp =
        ap (λ (v : ℕ → ℕ). v 0)
          (u2-SameOuter n h.outer_tmp ∙ (h.starts (exec_all m (alloca_zero n) s)).2)
        ∙ alloca_zero-env m n s

    u2_gep : u2.env gep.id 0 ≡ base + 4 * k
    u2_gep =
        h.element u1 u1-SameOuter (λ a ne out. h.header_mem u a ∙ g.same_but a ne out)
        ∙ ap (λ (q : ℕ). base + q) (h.header_mem u c ∙ g.counter)

    u3_mem :
        (a : ℕ)
        → u3.mem a ≡ (
            if in_range t 4 a
            then (u.mem (t + (a - t)) + u.mem (base + 4 * k + (a - t))) % 2 ^ 32
            else u.mem a)
    u3_mem a =
        round-mem m (n + 2) gep.id n u2 a h.small_gep (omega arith)
        ∙ ap₂
            (λ (p q : ℕ).
              if in_range p 4 a
              then (u2.mem (p + (a - p)) + u2.mem (q + (a - p))) % 2 ^ 32
              else u2.mem a)
            u2_tmp u2_gep
        ∙ ap₂ (λ (p q : ℕ). if in_range t 4 a then p % 2 ^ 32 else q)
            (ap₂ ◌+◌ (u2_mem (t + (a - t))) (u2_mem (base + 4 * k + (a - t)))) (u2_mem a)

    u3_ptr : u3.env ptr 0 ≡ c
    u3_ptr =
        ap (λ (v : ℕ → ℕ). v 0) (u3-SameOuter ptr h.outer_ptr)
        ∙ (h.starts (exec_all m (alloca_zero n) s)).0

    u4_mem : (a : ℕ) → u4.mem a ≡ (if a == c then (u3.mem (c + (a - c)) + 4) % 2 ^ 32 else u3.mem a)
    u4_mem a =
        ap (λ l. (exec_all m (scale_step 0 l) u3).mem a) h.counts
        ∙ counted-mem m h.old h.new h.id ptr c u3 u3_ptr
            (outer_other ptr h.old h.outer_ptr h.outer_old)
            (outer_other ptr h.new h.outer_ptr h.outer_new) a
        ∙ ap (λ (b : Bool). if b then (u3.mem (c + (a - c)) + 4) % 2 ^ 32 else u3.mem a)
            (own_cell a)

    own_not_counter : (j : ℕ) → j < 4 → ((t + j) == c) ≡ false
    own_not_counter j lt = elim (Bool-cases ((t + j) == c)) [
      | inr e ↦ e
      | inl e ↦ absurd (
          false≢true (
            sym h.apart
            ∙ ap (λ (a : ℕ). in_range t 4 a) (sym ((==_iff (t + j) c).0 e))
            ∙ in_own j lt))
    ]

    round-Added : Added (suc k) u4
    round-Added = record {
      same_outer = λ i o.
          ap (λ l. (exec_all m (scale_step 0 l) u3).env i) h.counts
          ∙ counted-env m h.old h.new h.id ptr c u3 u3_ptr
              (outer_other ptr h.old h.outer_ptr h.outer_old)
              (outer_other ptr h.new h.outer_ptr h.outer_new) i (outer_other i h.old o h.outer_old)
              (outer_other i h.new o h.outer_new)
          ∙ u3-SameOuter i o;
      same_but = λ a ne out. u4_mem a ∙ rw ne (u3_mem a ∙ rw out (g.same_but a ne out));
      counter =
          let at_c : u3.mem c ≡ 4 * k = u3_mem c ∙ rw h.apart g.counter in
          let moved : u3.mem (c + (c - c)) ≡ 4 * k = ap u3.mem (omega arith) ∙ at_c in
          u4_mem c ∙ rw ((==_iff c c).1 refl) (omega (arith, moved, small));
      lanes = λ j lt.
          let e : in_range t 4 (t + j) ≡ true = in_own j lt in
          let el : u.mem (base + (4 * k + j)) ≡ x (4 * k + j) =
            g.same_but (base + (4 * k + j)) (elements (4 * k + j) (omega (arith, lt))).1
              (elements (4 * k + j) (omega (arith, lt))).0 in
          u4_mem (t + j)
          ∙ rw (own_not_counter j lt) (
              u3_mem (t + j)
              ∙ rw e (
                  ap₂ (λ (p q : ℕ). (p + q) % 2 ^ 32) (ap u.mem (omega arith) ∙ g.lanes j lt)
                    (ap u.mem (omega arith) ∙ el)
                  ∙ mod-add-mod (lane_sum x j k) (2 ^ 32) (x (4 * k + j))));
    }

  rounds-Added :
      (k : ℕ)
      → 4 * k < 2 ^ 32
      → ((i : ℕ) → i < 4 * k → (in_range t 4 (base + i) ≡ false) × (((base + i) == c) ≡ false))
      → Added k (rounds m header body (scale_step 0 inc) k s0)
  rounds-Added zero lt elements = start-Added
  rounds-Added (suc k) lt elements =
      let u = rounds m header body (scale_step 0 inc) k s0 in
      let g = rounds-Added k (omega (arith, lt)) (λ i l. elements i (omega (arith, l))) in
      subst (Added (suc k))
        (ap (exec_all m (scale_step 0 inc)) (sym (body-split (exec_all m header u))))
        (round-Added k u g (omega (arith, lt)) (λ i l. elements i (omega (arith, l))))

  -- After `k` rounds, at the start of the exit block.
  pub lanes-rounds :
      (k j : ℕ)
      → 4 * k < 2 ^ 32
      → ((i : ℕ) → i < 4 * k → (in_range t 4 (base + i) ≡ false) × (((base + i) == c) ≡ false))
      → j < 4
      → let v = exec_all m header (rounds m header body (scale_step 0 inc) k entered) in
        v.mem (v.env n 0 + j) ≡ lane_sum (λ i. entered.mem (base + i)) j k % 2 ^ 32
  lanes-rounds k j lt elements small =
      let u = rounds m header body (scale_step 0 inc) k s0 in
      let v = exec_all m header u in
      let g = rounds-Added k lt elements in
      let tmp : v.env n 0 ≡ t =
        ap (λ (w : ℕ → ℕ). w 0)
          (h.header_outer u n h.outer_tmp
            ∙ g.same_outer n h.outer_tmp
            ∙ (h.starts (exec_all m (alloca_zero n) s)).2)
        ∙ alloca_zero-env m n s in
      subst
        (λ (e : State).
          let w = exec_all m header (rounds m header body (scale_step 0 inc) k e) in
          w.mem (w.env n 0 + j) ≡ lane_sum (λ i. e.mem (base + i)) j k % 2 ^ 32)
        (sym entered-split)
        (ap (λ (q : ℕ). v.mem (q + j)) tmp ∙ h.header_mem u (t + j) ∙ g.lanes j small)
