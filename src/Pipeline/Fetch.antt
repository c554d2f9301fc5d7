-- ===== src/Pipeline/Fetch.antt =====
-- `FetchStage` of src/uarch/pipeline/fetch.cpp.
pub mod Laws
use cpu_sim.Base.{ℕ, Bool, true, false, Option, none, some, add32, if◌then◌else◌, ◌>>=◌}
use cpu_sim.Memory.Interface.{IMemory}
use cpu_sim.Predictor.{BranchPredictor, Prediction, predict}
use cpu_sim.Pipeline.Latch.{Latch, write, latch, flush}
use cpu_sim.Pipeline.Regs.{IfId, if_id_bubble}

pub record FetchStage : Type 0 where
  pub pc : ℕ
  pub next_pc : ℕ
  pub stall : Bool
  pub redirect : Bool
  pub redirect_target : ℕ
  pub fetch_stall : Bool

unfoldable pub create : ℕ → FetchStage
create reset_pc = record {
  pc = reset_pc;
  next_pc = 0;
  stall = false;
  redirect = false;
  redirect_target = 0;
  fetch_stall = false;
}

unfoldable pub set_stall : Bool → FetchStage → FetchStage
set_stall s f = record f { stall = s }

unfoldable pub set_redirect : Bool → ℕ → FetchStage → FetchStage
set_redirect r target f = record f { redirect = r; redirect_target = target }

-- A null predictor predicts not-taken.
unfoldable pub guess : Option BranchPredictor → ℕ → Prediction
guess none pc = record { taken = false; target = 0 }
guess (some bp) pc = predict bp pc

-- What is put into the shadow for the word `raw` fetched at `pc`, and where to fetch next.
unfoldable pub fetched : Option BranchPredictor → ℕ → ℕ → IfId
unfolding guess
fetched bp pc raw = record {
  pc = pc;
  raw = raw;
  valid = true;
  predicted_taken = (guess bp pc).taken;
}

unfoldable pub predicted_pc : Option BranchPredictor → ℕ → ℕ
unfolding guess
predicted_pc bp pc = if (guess bp pc).taken then (guess bp pc).target else add32 pc 4

module _ (M : IMemory) where
  pub record Fetched : Type 0 where
    pub imem : M.State
    pub out : Latch IfId
    pub stage : FetchStage

  unfoldable pub evaluate :
      Option BranchPredictor → M.State → Latch IfId → FetchStage → Option Fetched
  evaluate bp imem out f =
      let (served, imem') = M.ready imem f.pc false in
      if served
      then (M.load_word imem' f.pc >>= λ raw. some (record {
        imem = imem';
        out = write (fetched bp f.pc raw) out;
        stage = record f {
          fetch_stall = false;
          next_pc = if f.redirect then f.redirect_target else predicted_pc bp f.pc;
        };
      }))
      else some (record {
        imem = imem';
        out = write if_id_bubble out;
        stage = record f { fetch_stall = true; next_pc = f.pc };
      })

  -- `latch`: the memory's timer advances first; then the redirect, the stall or the commit.
  unfoldable pub latch_stage : M.State → Latch IfId → FetchStage → Fetched
  latch_stage imem out f =
      let ticked = M.tick imem in
      if f.redirect
      then record {
        imem = ticked;
        out = flush if_id_bubble out;
        stage = record f { pc = f.redirect_target; stall = false; redirect = false };
      }
      else if f.stall
      then record { imem = ticked; out = out; stage = record f { stall = false; redirect = false } }
      else record {
        imem = ticked;
        out = latch out;
        stage = record f {
          pc = if f.fetch_stall then f.pc else f.next_pc;
          stall = false;
          redirect = false;
        };
      }
