-- ===== src/Arch/Refinement.antt =====
-- A memory port that answers late implements a memory: its data are a view of its state.
use cpu_sim.Base.{ℕ, ◌≡◌, refl, Option, none, some, ◌>>=◌, bit_and}
use mathlib.Core.Option
use cpu_sim.Isa.Op.{Op}
use cpu_sim.Memory.Interface.{IMemory}
use cpu_sim.Memory.Transparency.{IsTimingOnly}
use cpu_sim.Pipeline.Regs.{ExMem, MemWb}
use cpu_sim.Pipeline.MemAccess.{access, widen16, widen8, loaded, stored}

-- `D` holds what `S` holds under `view`, and waiting on it changes nothing of that.
pub record Implements (D S : IMemory) (view : D.State → S.State) : Type 0 where
  pub same_word : (m : D.State) (a : ℕ) → D.load_word m a ≡ S.load_word (view m) a
  pub same_half : (m : D.State) (a : ℕ) → D.load_half m a ≡ S.load_half (view m) a
  pub same_byte : (m : D.State) (a : ℕ) → D.load_byte m a ≡ S.load_byte (view m) a
  pub put_word :
      (m : D.State) (a v : ℕ) → Option.map view (D.store_word m a v) ≡ S.store_word (view m) a v
  pub put_half :
      (m : D.State) (a v : ℕ) → Option.map view (D.store_half m a v) ≡ S.store_half (view m) a v
  pub put_byte :
      (m : D.State) (a v : ℕ) → Option.map view (D.store_byte m a v) ≡ S.store_byte (view m) a v
  pub timing : IsTimingOnly D view

module _ {D S : IMemory} {view : D.State → S.State} (h : Implements D S view) where
  -- An access is that of the memory implemented.
  abbrev pub seen : MemWb × D.State → MemWb × S.State
  seen r = (r.0, view r.1)

  load-view :
      (o : Option ℕ) {p : Option ℕ} (f : ℕ → MemWb) (m : D.State)
      → o ≡ p
      → Option.map seen (o >>= λ v. some (f v, m)) ≡ (p >>= λ v. some (f v, view m))
  load-view none f m e = rw (← e) refl
  load-view (some v) f m e = rw (← e) refl

  store-view :
      (o : Option D.State) {p : Option S.State} (wb : MemWb)
      → Option.map view o ≡ p
      → Option.map seen (o >>= λ m. some (wb, m)) ≡ (p >>= λ m. some (wb, m))
  store-view none wb e = rw (← e) refl
  store-view (some m) wb e = rw (← e) refl

  pub access-view :
      (op : Op) (ex : ExMem) (m : D.State)
      → Option.map seen (access D op ex m) ≡ access S op ex (view m)
  unfolding access
  access-view Op.lw ex m =
      load-view (D.load_word m ex.alu_out) (loaded ex) m (h.same_word m ex.alu_out)
  access-view Op.lh ex m =
      load-view (D.load_half m ex.alu_out) (λ v. loaded ex (widen16 v)) m (h.same_half m ex.alu_out)
  access-view Op.lhu ex m =
      load-view (D.load_half m ex.alu_out) (loaded ex) m (h.same_half m ex.alu_out)
  access-view Op.lb ex m =
      load-view (D.load_byte m ex.alu_out) (λ v. loaded ex (widen8 v)) m (h.same_byte m ex.alu_out)
  access-view Op.lbu ex m =
      load-view (D.load_byte m ex.alu_out) (loaded ex) m (h.same_byte m ex.alu_out)
  access-view Op.sw ex m =
      store-view (D.store_word m ex.alu_out ex.rs2_val) (stored ex ex.rs2_val)
        (h.put_word m ex.alu_out ex.rs2_val)
  access-view Op.sh ex m =
      let v = bit_and ex.rs2_val 0xffff in
      store-view (D.store_half m ex.alu_out v) (stored ex v) (h.put_half m ex.alu_out v)
  access-view Op.sb ex m =
      let v = bit_and ex.rs2_val 0xff in
      store-view (D.store_byte m ex.alu_out v) (stored ex v) (h.put_byte m ex.alu_out v)
  access-view _ ex m = refl
