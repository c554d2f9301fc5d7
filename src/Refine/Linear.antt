-- ===== src/Refine/Linear.antt =====
-- Without a predictor, what stands in the pipeline was fetched from consecutive addresses, from the
-- oldest instruction that decides where fetch goes on.
use cpu_sim.Base.{ℕ, ◌≡◌, arith, Bool, true, false, Option, some, ◌||◌, if◌then◌else◌, add32}
use cpu_sim.Isa.Op.{Op}
use cpu_sim.Isa.Decoder.{decode}
use cpu_sim.Alu.{branch_taken}
use cpu_sim.Memory.Interface.{IMemory}
use cpu_sim.Pipeline.Regs.{IfId, IdEx, MemWb}
use cpu_sim.Pipeline.Execute.{executed, actual_taken, is_cond_branch, is_jal, is_jalr}
use cpu_sim.Pipeline.Decode.{decoded}
use cpu_sim.Refine.Latched.{Latched, stalled, advanced, redirects, first, second}
use cpu_sim.Refine.Claims.{ends}

-- What can send fetch elsewhere.
abbrev pub is_control : Op → Bool
is_control op = is_cond_branch op || is_jal op || is_jalr op

-- Any other instruction goes on with the next one.
straight-taken : (id : IdEx) (a b : ℕ) → is_control id.op ≡ false → actual_taken id a b ≡ false
unfolding actual_taken branch_taken is_jal is_jalr is_cond_branch
straight-taken id a b h = ground (arith, h)

module _ {I D : IMemory} (code : ℕ → Option ℕ) where
  -- The address of the oldest instruction up to a stage, or else the one that fetch is at.
  abbrev pub at_front : Latched I D → ℕ
  at_front l = if l.front.valid then l.front.pc else l.pc

  abbrev pub at_ex : Latched I D → ℕ
  at_ex l = if l.ex.valid then l.ex.pc else at_front l

  abbrev pub at_mem : Latched I D → ℕ
  at_mem l = if l.mem.valid then l.mem.pc else at_ex l

  -- Each valid slot holds the code's word at its address, decoded, and was not predicted taken.
  pub record IsLinear (l : Latched I D) : Type 0 where
    pub front_next : l.front.valid ≡ true → l.pc ≡ add32 l.front.pc 4
    pub ex_next : l.ex.valid ≡ true → at_front l ≡ add32 l.ex.pc 4
    pub mem_next : l.mem.valid ≡ true → is_control l.mem.op ≡ false → at_ex l ≡ add32 l.mem.pc 4
    pub wb_next : ends l.wb ≡ true → at_mem l ≡ add32 l.wb.pc 4
    pub front_taken : l.front.valid ≡ true → l.front.predicted_taken ≡ false
    pub ex_taken : l.ex.valid ≡ true → l.ex.predicted_taken ≡ false
    pub front_word : l.front.valid ≡ true → code l.front.pc ≡ some l.front.raw
    pub ex_word : l.ex.valid ≡ true → code l.ex.pc ≡ some l.ex.raw
    pub ex_op : l.ex.valid ≡ true → l.ex.op ≡ (decode l.ex.raw l.ex.pc).op
    pub mem_word : l.mem.valid ≡ true → code l.mem.pc ≡ some l.mem.raw
    pub mem_op : l.mem.valid ≡ true → l.mem.op ≡ (decode l.mem.raw l.mem.pc).op

  pub stalled-IsLinear :
      (l : Latched I D) (imem : I.State) (dmem : D.State)
      → IsLinear l
      → IsLinear (stalled I D l imem dmem)
  unfolding stalled
  stalled-IsLinear l imem dmem h = record {
    front_next = h.front_next;
    ex_next = h.ex_next;
    mem_next = h.mem_next;
    wb_next = λ e. cc;
    front_taken = h.front_taken;
    ex_taken = h.ex_taken;
    front_word = h.front_word;
    ex_word = h.ex_word;
    ex_op = h.ex_op;
    mem_word = h.mem_word;
    mem_op = h.mem_op;
  }

  straight-redirects :
      (l : Latched I D)
      → l.ex.valid ≡ true
      → l.ex.predicted_taken ≡ false
      → is_control l.ex.op ≡ false
      → redirects I D l ≡ false
  unfolding redirects
  straight-redirects l v n h =
      ground (arith, v, n, straight-taken l.ex (first I D l) (second I D l) h)

  -- What FETCH and MEM hand on.
  pub record IsNext (l : Latched I D) (wb : MemWb) (f : IfId) (next : ℕ) : Type 0 where
    pub next_eq : next ≡ (if f.valid then add32 l.pc 4 else l.pc)
    pub fetched_pc : f.valid ≡ true → f.pc ≡ l.pc
    pub fetched_word : f.valid ≡ true → code l.pc ≡ some f.raw
    pub fetched_taken : f.valid ≡ true → f.predicted_taken ≡ false
    pub from_mem :
        ends wb ≡ true → (l.mem.valid ≡ true) × (is_control l.mem.op ≡ false) × (wb.pc ≡ l.mem.pc)

  module _ (l : Latched I D) (imem : I.State) (dmem : D.State) (wb : MemWb) (f : IfId) (next : ℕ)
      (h : IsLinear l) (n : IsNext l wb f next) where
    abbrev after : Latched I D
    after = advanced I D l imem dmem wb f next

    after-front_next : after.front.valid ≡ true → after.pc ≡ add32 after.front.pc 4
    unfolding advanced
    after-front_next v = ground (arith, v, h.front_next, n.next_eq, n.fetched_pc)

    after-ex_next : after.ex.valid ≡ true → at_front after ≡ add32 after.ex.pc 4
    unfolding advanced decoded
    after-ex_next v = ground (arith, v, h.front_next, n.next_eq, n.fetched_pc)

    after-mem_next :
        after.mem.valid ≡ true
        → is_control after.mem.op ≡ false
        → at_ex after ≡ add32 after.mem.pc 4
    unfolding advanced decoded executed
    after-mem_next v e =
        ground (arith, v, e, h.ex_next, h.ex_taken, n.next_eq, n.fetched_pc, straight-redirects l)

    after-wb_next : ends after.wb ≡ true → at_mem after ≡ add32 after.wb.pc 4
    unfolding advanced decoded executed redirects
    after-wb_next e = ground (arith, n.from_mem e, h.mem_next, n.next_eq, n.fetched_pc)

    after-front :
        after.front.valid ≡ true
        → (after.front.predicted_taken ≡ false) × (code after.front.pc ≡ some after.front.raw)
    unfolding advanced
    after-front v =
        ground
          (arith, v, h.front_taken, h.front_word, n.fetched_pc, n.fetched_word, n.fetched_taken)

    after-ex :
        after.ex.valid ≡ true
        → (after.ex.predicted_taken ≡ false)
          × (code after.ex.pc ≡ some after.ex.raw)
          × (after.ex.op ≡ (decode after.ex.raw after.ex.pc).op)
    unfolding advanced decoded
    after-ex v = ground (arith, v, h.front_taken, h.front_word)

    after-mem :
        after.mem.valid ≡ true
        → (code after.mem.pc ≡ some after.mem.raw)
          × (after.mem.op ≡ (decode after.mem.raw after.mem.pc).op)
    unfolding advanced executed
    after-mem v = ground (arith, v, h.ex_word, h.ex_op)

    pub advanced-IsLinear : IsLinear after
    advanced-IsLinear = record {
      front_next = after-front_next;
      ex_next = after-ex_next;
      mem_next = after-mem_next;
      wb_next = after-wb_next;
      front_taken = λ v. (after-front v).0;
      ex_taken = λ v. (after-ex v).0;
      front_word = λ v. (after-front v).1;
      ex_word = λ v. (after-ex v).1;
      ex_op = λ v. (after-ex v).2;
      mem_word = λ v. (after-mem v).0;
      mem_op = λ v. (after-mem v).1;
    }
