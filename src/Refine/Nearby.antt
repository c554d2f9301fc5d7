-- ===== src/Refine/Nearby.antt =====
-- Where fetch and MEM can be: near the instruction that the core stands at, or its successor.
use cpu_sim.Base.{
  ℕ, zero, suc, ◌≤◌, ◌≡◌, inl, inr, refl, sym, ap, ◌∙◌, arith, Bool-cases, true, false, Option,
  some, add32,
}
use mathlib.Core.Option
use cpu_sim.Isa.Op.{Op}
use cpu_sim.Isa.Decoder.{decode}
use cpu_sim.Memory.Interface.{IMemory}
use cpu_sim.Predictor.{BranchPredictor}
use cpu_sim.Pipeline.Regs.{IdEx, ExMem, MemWb}
use cpu_sim.Pipeline.Execute.{executed, is_cond_branch, is_jal, is_jalr}
use cpu_sim.Pipeline.MemAccess.{access, is_mem_op, is_store}
use cpu_sim.Arch.{Arch, halts, step}
use cpu_sim.Refine.Latched.{Latched}
use cpu_sim.Refine.Claims.{Represents, InEx, InFront, ends, plain}
use cpu_sim.Refine.Step.{step-parts, handed}
use cpu_sim.Refine.Linear.{IsLinear, at_front, at_ex, at_mem, is_control}

-- `i` words further on.
abbrev pub run_on : ℕ → ℕ → ℕ
run_on zero pc = pc
run_on (suc i) pc = add32 (run_on i pc) 4

module _ (code : ℕ → Option ℕ) where
  -- The code reaches four words beyond an address.
  abbrev pub IsCovered : ℕ → Type 0
  IsCovered pc = (i : ℕ) → i ≤ 4 → (raw : ℕ) × (code (run_on i pc) ≡ some raw)

  -- The word behind an address neither accesses the memory nor jumps.
  pub record IsCalm (pc : ℕ) : Type 0 where
    pub behind : ℕ
    pub behind_eq : code (add32 pc 4) ≡ some behind
    pub no_access : is_mem_op (decode behind (add32 pc 4)).op ≡ false
    pub no_jump : is_control (decode behind (add32 pc 4)).op ≡ false

pub halts-calm : (op : Op) → halts op ≡ true → (is_mem_op op ≡ false) × (is_control op ≡ false)
unfolding halts is_mem_op is_store is_cond_branch is_jal is_jalr
halts-calm Op.ebreak h = (refl, refl)
halts-calm Op.illegal h = (refl, refl)
halts-calm _ h = cc

pub calm-access :
    (S : IMemory) (op : Op) (ex : ExMem) (m : S.State)
    → is_mem_op op ≡ false
    → (r : MemWb × S.State) × (access S op ex m ≡ some r)
unfolding access is_mem_op is_store
calm-access S Op.lb ex m h = cc
calm-access S Op.lh ex m h = cc
calm-access S Op.lw ex m h = cc
calm-access S Op.lbu ex m h = cc
calm-access S Op.lhu ex m h = cc
calm-access S Op.sb ex m h = cc
calm-access S Op.sh ex m h = cc
calm-access S Op.sw ex m h = cc
calm-access S _ ex m h = (_, refl)

step-halts :
    (S : IMemory) (code : ℕ → Option ℕ) (s : Arch S) (raw : ℕ) {u : Arch S}
    → code s.pc ≡ some raw
    → step S code s ≡ some u
    → halts (decode raw s.pc).op ≡ false
unfolding step
step-halts S code s raw c st = elim (Bool-cases (halts (decode raw s.pc).op)) [
  | inl h ↦ cc (rw (c, h) at st)
  | inr h ↦ h
]

module _ {I D : IMemory} {code : ℕ → Option ℕ} (l : Latched I D) (h : IsLinear code l) (p : ℕ) where
  -- Fetch is at most that far on.
  abbrev Within : ℕ → Type 0
  Within n = (j : ℕ) × (j ≤ n) × (l.pc ≡ run_on j p)

  from_front : (i : ℕ) → at_front code l ≡ run_on i p → Within (suc i)
  from_front i e = elim (Bool-cases l.front.valid) [
    | inl v ↦ (suc i, omega arith, h.front_next v ∙ ap (λ a. add32 a 4) (ground (arith, v, e)))
    | inr v ↦ (i, omega arith, ground (arith, v, e))
  ]

  pub from_ex : (i : ℕ) → at_ex code l ≡ run_on i p → Within (suc (suc i))
  from_ex i e = elim (Bool-cases l.ex.valid) [
    | inl v ↦ from_front (suc i) (h.ex_next v ∙ ap (λ a. add32 a 4) (ground (arith, v, e)))
    | inr v ↦ let (j, b, k) = from_front i (ground (arith, v, e)) in (j, omega arith, k)
  ]

  pub from_mem :
      (i : ℕ)
      → (l.mem.valid ≡ true → is_control l.mem.op ≡ false)
      → at_mem code l ≡ run_on i p
      → Within (suc (suc (suc i)))
  from_mem i calm e = elim (Bool-cases l.mem.valid) [
    | inl v ↦ from_ex (suc i) (h.mem_next v (calm v) ∙ ap (λ a. add32 a 4) (ground (arith, v, e)))
    | inr v ↦ let (j, b, k) = from_ex i (ground (arith, v, e)) in (j, omega arith, k)
  ]

module _ (I D S : IMemory) (view : D.State → S.State) (Holds : I.State → Type 0)
    (code : ℕ → Option ℕ) (Guides : Option BranchPredictor → Type 0) where
  -- What is known of the program at a state: it ends there, or goes on.
  pub data Continues (s : Arch S) : Type 0 where
    at_end :
        (raw : ℕ)
        → code s.pc ≡ some raw
        → halts (decode raw s.pc).op ≡ true
        → IsCalm code s.pc
        → Continues s
    goes_on : (u : Arch S) → step S code s ≡ some u → IsCovered code u.pc → Continues s

  module _ (l : Latched I D) (s : Arch S) (rep : Represents I D S view Holds code Guides l s)
      (lin : IsLinear code l) where
    in_ex-at : (u : Arch S) → InEx I D S view Holds code Guides l u → at_ex code l ≡ u.pc
    unfolding plain
    in_ex-at u x = elim (Bool-cases l.ex.valid) [
      | inl v ↦ rw v (ap {A = IdEx} (λ e. e.pc) (x.ex_eq v))
      | inr v ↦ let f = x.in_front u (inl (v, refl)) (λ w. cc) in rw v (front_at f)
    ]
      where
        front_at : InFront I D S view Holds code Guides l.front l.pc u → at_front code l ≡ u.pc
        front_at f = elim (Bool-cases l.front.valid) [
          | inl v ↦ rw v (f.front_pc v)
          | inr v ↦ rw v (f.idle_pc v)
        ]

    -- The word in MEM behind the end of the program.
    behind-IsCalm :
        ends l.wb ≡ true
        → IsCalm code s.pc
        → l.mem.valid ≡ true
        → (is_mem_op l.mem.op ≡ false) × (is_control l.mem.op ≡ false)
    behind-IsCalm e c v =
        let (_, at, _) = rep.ended e in
        let pc : l.mem.pc ≡ add32 s.pc 4 = ground (arith, lin.wb_next e, v, at) in
        let raw : c.behind ≡ l.mem.raw =
          Option.some-injective _ _ (sym c.behind_eq ∙ ap code (sym pc) ∙ lin.mem_word v) in
        let op : l.mem.op ≡ (decode c.behind (add32 s.pc 4)).op =
          lin.mem_op v ∙ rw (← raw, pc) refl in
        (ap is_mem_op op ∙ c.no_access, ap is_control op ∙ c.no_jump)

    -- The instruction in MEM is the one that the state stands at.
    module _ (go : ends l.wb ≡ false) (v : l.mem.valid ≡ true) where
      mem-is : l.mem ≡ handed S s l.mem.raw
      mem-is = (rep.flows go).in_mem.mem_eq v

      mem-pc : l.mem.pc ≡ s.pc
      unfolding executed plain
      mem-pc = ap {A = ExMem} (λ x. x.pc) mem-is

      mem-op : l.mem.op ≡ (decode l.mem.raw s.pc).op
      unfolding executed plain
      mem-op = ap {A = ExMem} (λ x. x.op) mem-is

      at_end-halts :
          (raw : ℕ)
          → code s.pc ≡ some raw
          → halts (decode raw s.pc).op ≡ true
          → halts l.mem.op ≡ true
      at_end-halts raw c e =
          let same : raw ≡ l.mem.raw =
            Option.some-injective _ _ (sym c ∙ (rep.flows go).in_mem.mem_code v) in
          ap halts mem-op ∙ ap (λ w. halts (decode w s.pc).op) (sym same) ∙ e

      goes_on-halts : (u : Arch S) → step S code s ≡ some u → halts l.mem.op ≡ false
      goes_on-halts u st =
          ap halts mem-op ∙ step-halts S code s l.mem.raw ((rep.flows go).in_mem.mem_code v) st

      step-access :
          (u : Arch S)
          → step S code s ≡ some u
          → (r : MemWb × S.State) × (access S l.mem.op l.mem (view l.dmem) ≡ some r)
      unfolding executed plain
      step-access u st =
          let c = (rep.flows go).in_mem.mem_code v in
          let (wb, m, a, _) =
            step-parts S code s l.mem.raw c (step-halts S code s l.mem.raw c st) st in
          (
            (wb, m),
            ap (access S l.mem.op l.mem) ((rep.flows go).memory)
                ∙ ap {A = ExMem} (λ x. access S x.op x s.mem) mem-is
                ∙ a,
          )

      going-access :
          Continues s → (r : MemWb × S.State) × (access S l.mem.op l.mem (view l.dmem) ≡ some r)
      going-access (Continues.at_end raw c e _) =
          calm-access S l.mem.op l.mem (view l.dmem) (halts-calm l.mem.op (at_end-halts raw c e)).0
      going-access (Continues.goes_on u st _) = step-access u st

      going-near : Continues s → IsCovered code s.pc → (raw : ℕ) × (code l.pc ≡ some raw)
      going-near (Continues.at_end raw c e _) cover =
          let straight = (halts-calm l.mem.op (at_end-halts raw c e)).1 in
          let (j, b, k) =
            from_ex l lin s.pc 1 (lin.mem_next v straight ∙ ap (λ a. add32 a 4) mem-pc) in
          let (w, f) = cover j (omega arith) in (w, ap code k ∙ f)
      going-near (Continues.goes_on u st cover) _ =
          let x = (rep.flows go).in_ex u (inr (v, goes_on-halts u st, st)) in
          let (j, b, k) = from_ex l lin u.pc 0 (in_ex-at u x) in
          let (w, f) = cover j (omega arith) in (w, ap code k ∙ f)

    -- At the end, the word behind is calm.
    ended-IsCalm : ends l.wb ≡ true → Continues s → IsCalm code s.pc
    ended-IsCalm e (Continues.at_end _ _ _ c) = c
    ended-IsCalm e (Continues.goes_on u st _) =
        let (at, _, op) = rep.ended e in
        absurd (ground (arith, op, e, step-halts S code s l.wb.raw at st))

    -- Fetch is at a word of the code.
    pub fetch-near : Continues s → IsCovered code s.pc → (raw : ℕ) × (code l.pc ≡ some raw)
    fetch-near k cover = elim (Bool-cases (ends l.wb)) [
      | inl e ↦
          let (_, at, _) = rep.ended e in
          let (j, b, f) =
            from_mem l lin s.pc 1 (λ v. (behind-IsCalm e (ended-IsCalm e k) v).1)
              (lin.wb_next e ∙ ap (λ a. add32 a 4) at) in
          let (w, g) = cover j b in (w, ap code f ∙ g)
      | inr e ↦ elim (Bool-cases l.mem.valid) [
        | inl v ↦ going-near e v k cover
        | inr v ↦
            let x = (rep.flows e).in_ex s (inl (v, refl)) in
            let (j, b, f) = from_ex l lin s.pc 0 (in_ex-at s x) in
            let (w, g) = cover j (omega arith) in (w, ap code f ∙ g)
      ]
    ]

    -- The access that MEM is to make is defined.
    pub access-defined :
        Continues s
        → l.mem.valid ≡ true
        → (r : MemWb × S.State) × (access S l.mem.op l.mem (view l.dmem) ≡ some r)
    access-defined k v = elim (Bool-cases (ends l.wb)) [
      | inl e ↦ calm-access S l.mem.op l.mem (view l.dmem) (behind-IsCalm e (ended-IsCalm e k) v).0
      | inr e ↦ going-access e v k
    ]
