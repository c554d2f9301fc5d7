-- ===== src/Refine/Ports.antt =====
-- The memory ports of a core implement a plain memory: a flat memory with any latency does, and so
-- does a cache on a port that does.
use cpu_sim.Base.{
  ℕ, ◌≡◌, refl, ap, ◌∙◌, arith, false, Option, none, some, ◌>>=◌, add32, List, [], ◌∷◌,
}
use mathlib.Core.Option
use cpu_sim.Memory.Interface.{IMemory}
use cpu_sim.Memory.FlatMem
use cpu_sim.Memory.FlatMem.{FlatMem, flat_memory, offset, byte_at, put_byte}
use cpu_sim.Memory.Cache.{Cache, cache_memory, with_backing}
use cpu_sim.Memory.Cache.Data.{cache_memory-IsTimingOnly}
use cpu_sim.Predictor.{BranchPredictor}
use cpu_sim.Pipeline.Fetch.{guess}
use cpu_sim.Sim.Core.{load_words}
use cpu_sim.Arch.Refinement.{Implements}
use cpu_sim.Refine.Claims.{IsCode, IsGuide}

-- A memory that is not asked for anything, and answers at once.
abbrev pub at_rest : FlatMem → FlatMem
at_rest m = record { base = m.base; mem = m.mem; latency = 1; serving = false; remaining = 0 }

pub flat_memory-Implements : Implements flat_memory flat_memory at_rest
unfolding FlatMem.load_word FlatMem.load_half FlatMem.load_byte FlatMem.store_word
    FlatMem.store_half FlatMem.store_byte FlatMem.ready FlatMem.tick offset byte_at put_byte
flat_memory-Implements = record {
  same_word = λ m a. refl;
  same_half = λ m a. refl;
  same_byte = λ m a. refl;
  put_word = λ m a v. ground arith;
  put_half = λ m a v. ground arith;
  put_byte = λ m a v. ground arith;
  timing = record { ready_keeps = λ m a w. ground arith; tick_keeps = λ m. ground arith };
}

module _ {M S : IMemory} {view : M.State → S.State} (h : Implements M S view) where
  map-with_backing :
      (c : Cache M) (o : Option M.State) {p : Option S.State}
      → Option.map view o ≡ p
      → Option.map (λ c. view c.backing) (Option.map (with_backing M c) o) ≡ p
  map-with_backing c none e = e
  map-with_backing c (some m) e = e

  -- A cache on a memory that implements `S` implements `S`: a load through it finds what `S` holds, a
  -- store is made there, and being asked and clocked, whatever it then does on its own, changes none
  -- of the data.
  pub cache_memory-Implements : Implements (cache_memory M) S (λ c. view c.backing)
  cache_memory-Implements = record {
    same_word = λ c a. h.same_word c.backing a;
    same_half = λ c a. h.same_half c.backing a;
    same_byte = λ c a. h.same_byte c.backing a;
    put_word = λ c a v. map-with_backing c (M.store_word c.backing a v) (h.put_word c.backing a v);
    put_half = λ c a v. map-with_backing c (M.store_half c.backing a v) (h.put_half c.backing a v);
    put_byte = λ c a v. map-with_backing c (M.store_byte c.backing a v) (h.put_byte c.backing a v);
    timing = cache_memory-IsTimingOnly h.timing;
  }

  -- A port that is only read holds the words of the memory that it implements.
  pub Implements-IsCode : (s : S.State) → IsCode M (λ m. view m ≡ s) (S.load_word s)
  Implements-IsCode s = record {
    same_code = λ m a e. h.same_word m a ∙ ap (λ s. S.load_word s a) e;
    ready_Holds = λ m a w e. h.timing.ready_keeps m a w ∙ e;
    tick_Holds = λ m e. h.timing.tick_keeps m ∙ e;
  }

  bind-view :
      (k : M.State → Option M.State) (k' : S.State → Option S.State)
      → ((m : M.State) → Option.map view (k m) ≡ k' (view m))
      → (o : Option M.State) {p : Option S.State} → Option.map view o ≡ p
      → Option.map view (o >>= k) ≡ (p >>= k')
  bind-view k k' e none h = rw (← h) refl
  bind-view k k' e (some m) h = rw (← h) (e m)

  -- A program is loaded as into the memory implemented.
  pub load_words-view :
      (D D' : IMemory) (words : List ℕ) (addr : ℕ) (m : M.State)
      → Option.map view (load_words M D words addr m) ≡ load_words S D' words addr (view m)
  unfolding load_words
  load_words-view D D' [] addr m = refl
  load_words-view D D' (w ∷ words) addr m =
      bind-view (load_words M D words (add32 addr 4)) (load_words S D' words (add32 addr 4))
        (load_words-view D D' words (add32 addr 4)) (M.store_word m addr w) (h.put_word m addr w)

no_guess : (bp : Option BranchPredictor) (pc : ℕ) → bp ≡ none → (guess bp pc).taken ≡ false
unfolding guess
no_guess none pc e = refl
no_guess (some p) pc e = cc

-- Without a predictor, nothing is predicted taken.
pub no_predictor-IsGuide : (code : ℕ → Option ℕ) → IsGuide code (λ bp. bp ≡ none)
no_predictor-IsGuide code = record {
  guess_Guides = λ bp pc raw e c t. absurd (ground (arith, t, no_guess bp pc e));
  update_Guides = λ p pc raw taken e c k. cc;
}
