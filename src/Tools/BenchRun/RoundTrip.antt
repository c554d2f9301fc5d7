-- ===== src/Tools/BenchRun/RoundTrip.antt =====
-- A command line, written as the usage message says, is read as what it asks for.
use cpu_sim.Base.{value_or, ltb, ltb→lt, and-left, and-right, ◌&&◌}
use cpu_sim.Base.{ℕ, ◌^◌, ◌<◌, ◌≡◌, refl, sym, ap, ◌∙◌, arith, Bool, true, false}
use cpu_sim.Base.{Option, none, some, List, [], ◌∷◌, ◌++◌, ◌==◌, ◌≢◌}
use cpu_sim.Sim.Tracer.Texts.{Text, codes, decimal}
use cpu_sim.Tools.BenchRun.Numbers.{is_digit, strtoul, to_unsigned}
use cpu_sim.Tools.BenchRun.CommandLine.{Options, default_options, positional, read_arg, read_args}
use cpu_sim.Tools.BenchRun.Decimals.{decimal_split, strtoul-decimal}

-- The options of the usage message.
pub data Setting : Type 0 where
  trace cycles : Text → Setting
  mem_latency dcache_ways imem_latency icache_ways iprefetch_degree : ℕ → Setting
  dcache icache iprefetch bpred : Setting

-- An option as an argument.
unfoldable pub spell : Setting → Text
spell (Setting.trace file) = codes "--trace=" ++ file
spell (Setting.cycles file) = codes "--cycles=" ++ file
spell (Setting.mem_latency n) = codes "--mem-latency=" ++ decimal n
spell Setting.dcache = codes "--dcache"
spell (Setting.dcache_ways n) = codes "--dcache-ways=" ++ decimal n
spell (Setting.imem_latency n) = codes "--imem-latency=" ++ decimal n
spell Setting.icache = codes "--icache"
spell (Setting.icache_ways n) = codes "--icache-ways=" ++ decimal n
spell Setting.iprefetch = codes "--iprefetch"
spell (Setting.iprefetch_degree n) = codes "--iprefetch-degree=" ++ decimal n
spell Setting.bpred = codes "--bpred"

-- What it asks for.
unfoldable pub apply : Setting → Options → Options
apply (Setting.trace file) o = record o { trace_path = some file }
apply (Setting.cycles file) o = record o { cycles_path = some file }
apply (Setting.mem_latency n) o = record o { mem_latency = n }
apply Setting.dcache o = record o { dcache = true }
apply (Setting.dcache_ways n) o = record o { dcache_ways = n }
apply (Setting.imem_latency n) o = record o { imem_latency = n }
apply Setting.icache o = record o { icache = true }
apply (Setting.icache_ways n) o = record o { icache_ways = n }
apply Setting.iprefetch o = record o { iprefetch = true }
apply (Setting.iprefetch_degree n) o = record o { iprefetch_degree = n }
apply Setting.bpred o = record o { bpred = true }

-- Its number, if it has one.
unfoldable pub number : Setting → ℕ
number (Setting.mem_latency n) = n
number (Setting.dcache_ways n) = n
number (Setting.imem_latency n) = n
number (Setting.icache_ways n) = n
number (Setting.iprefetch_degree n) = n
number _ = 0

unsigned-decimal : (n : ℕ) → n < 2 ^ 32 → to_unsigned (strtoul (decimal n)) ≡ n
unsigned-decimal n h = omega (arith, strtoul-decimal n (omega arith))

-- What an argument makes of the options, for each option.
module _ (o : Options) where
  read-mem_latency :
      (n : ℕ)
      → n < 2 ^ 32
      → read_arg (codes "--mem-latency=" ++ decimal n) o ≡ record o { mem_latency = n }
  unfolding read_arg
  read-mem_latency n h = ap (λ (v : ℕ). record o { mem_latency = v }) (unsigned-decimal n h)

  read-dcache_ways :
      (n : ℕ)
      → n < 2 ^ 32
      → read_arg (codes "--dcache-ways=" ++ decimal n) o ≡ record o { dcache_ways = n }
  unfolding read_arg
  read-dcache_ways n h = ap (λ (v : ℕ). record o { dcache_ways = v }) (unsigned-decimal n h)

  read-imem_latency :
      (n : ℕ)
      → n < 2 ^ 32
      → read_arg (codes "--imem-latency=" ++ decimal n) o ≡ record o { imem_latency = n }
  unfolding read_arg
  read-imem_latency n h = ap (λ (v : ℕ). record o { imem_latency = v }) (unsigned-decimal n h)

  read-icache_ways :
      (n : ℕ)
      → n < 2 ^ 32
      → read_arg (codes "--icache-ways=" ++ decimal n) o ≡ record o { icache_ways = n }
  unfolding read_arg
  read-icache_ways n h = ap (λ (v : ℕ). record o { icache_ways = v }) (unsigned-decimal n h)

  read-iprefetch_degree :
      (n : ℕ)
      → n < 2 ^ 32
      → read_arg (codes "--iprefetch-degree=" ++ decimal n) o ≡ record o { iprefetch_degree = n }
  unfolding read_arg
  read-iprefetch_degree n h =
      ap (λ (v : ℕ). record o { iprefetch_degree = v }) (unsigned-decimal n h)

  -- An argument that does not start with a dash is no option.
  read-plain :
      (c : ℕ) (cs : Text)
      → (c == b'-') ≡ false
      → read_arg (c ∷ cs) o ≡ positional o.elf_path (c ∷ cs) o
  unfolding read_arg
  read-plain c cs h = rw h refl

-- A file name that cannot be taken for an option.
abbrev pub IsPlain : Text → Type 0
IsPlain [] = ⊥
IsPlain (c ∷ cs) = c ≢ b'-'

-- The arguments for some options, in their order, in front of others.
unfoldable pub spelled : List Setting → List Text → List Text
unfolding spell
spelled [] rest = rest
spelled (s ∷ settings) rest = spell s ∷ spelled settings rest

-- `[max_cycles]`.
abbrev pub limit_argument : Option ℕ → List Text
limit_argument none = []
limit_argument (some n) = decimal n ∷ []

-- The arguments for options, a path and perhaps a limit.
unfoldable pub render : List Setting → Text → Option ℕ → List Text
unfolding spelled
render settings path limit = spelled settings (path ∷ limit_argument limit)

-- The options one after the other; of two that say different things, the later one counts.
unfoldable pub applied : List Setting → Options → Options
unfolding apply
applied [] o = o
applied (s ∷ settings) o = applied settings (apply s o)

-- What holds when nothing is asked for: memories that answer in 5 cycles for data and in one for
-- instructions, no caches, which would be direct-mapped, no prefetch, which would fetch one line, no
-- predictor, no trace, and no limit.
abbrev pub unset : Options
unset = record {
  trace_path = none;
  cycles_path = none;
  elf_path = none;
  max_cycles = 18446744073709551615;
  mem_latency = 5;
  dcache = false;
  dcache_ways = 1;
  imem_latency = 1;
  icache = false;
  icache_ways = 1;
  iprefetch = false;
  iprefetch_degree = 1;
  bpred = false;
}

-- What such a command line asks for.
unfoldable pub asked : List Setting → Text → Option ℕ → Options
unfolding applied
asked settings path limit = record (applied settings unset) {
  elf_path = some path;
  max_cycles = value_or 18446744073709551615 limit;
}

-- The numbers are 32-bit.
unfoldable pub fit : List Setting → Bool
unfolding number
fit [] = true
fit (s ∷ settings) = ltb (number s) (2 ^ 32) && fit settings

read-setting : (s : Setting) (o : Options) → number s < 2 ^ 32 → read_arg (spell s) o ≡ apply s o
unfolding number spell apply read_arg
read-setting (Setting.trace file) o h = refl
read-setting (Setting.cycles file) o h = refl
read-setting (Setting.mem_latency n) o h = read-mem_latency o n h
read-setting Setting.dcache o h = refl
read-setting (Setting.dcache_ways n) o h = read-dcache_ways o n h
read-setting (Setting.imem_latency n) o h = read-imem_latency o n h
read-setting Setting.icache o h = refl
read-setting (Setting.icache_ways n) o h = read-icache_ways o n h
read-setting Setting.iprefetch o h = refl
read-setting (Setting.iprefetch_degree n) o h = read-iprefetch_degree o n h
read-setting Setting.bpred o h = refl

read-spelled :
    (settings : List Setting) (rest : List Text) (o : Options)
    → fit settings ≡ true
    → read_args (spelled settings rest) o ≡ read_args rest (applied settings o)
unfolding read_args spelled applied fit
read-spelled [] rest o h = refl
read-spelled (s ∷ settings) rest o h =
    ap (read_args (spelled settings rest))
      (read-setting s o (ltb→lt (number s) (2 ^ 32) (and-left _ (fit settings) h)))
    ∙ read-spelled settings rest (apply s o) (and-right (ltb (number s) (2 ^ 32)) (fit settings) h)

-- No option sets the path or the limit.
abbrev positionals : Options → Option Text × ℕ
positionals o = (o.elf_path, o.max_cycles)

apply-positionals : (s : Setting) (o : Options) → positionals (apply s o) ≡ positionals o
unfolding apply
apply-positionals (Setting.trace file) o = refl
apply-positionals (Setting.cycles file) o = refl
apply-positionals (Setting.mem_latency n) o = refl
apply-positionals Setting.dcache o = refl
apply-positionals (Setting.dcache_ways n) o = refl
apply-positionals (Setting.imem_latency n) o = refl
apply-positionals Setting.icache o = refl
apply-positionals (Setting.icache_ways n) o = refl
apply-positionals Setting.iprefetch o = refl
apply-positionals (Setting.iprefetch_degree n) o = refl
apply-positionals Setting.bpred o = refl

applied-positionals :
    (settings : List Setting) (o : Options) → positionals (applied settings o) ≡ positionals o
unfolding applied
applied-positionals [] o = refl
applied-positionals (s ∷ settings) o =
    applied-positionals settings (apply s o) ∙ apply-positionals s o

digit-ne-dash : (c : ℕ) → is_digit c ≡ true → (c == b'-') ≡ false
unfolding is_digit
digit-ne-dash c h = ground arith

read-path :
    (path : Text) (o : Options)
    → IsPlain path
    → o.elf_path ≡ none
    → read_arg path o ≡ record o { elf_path = some path }
unfolding positional
read-path [] o h e = elim h [ ]
read-path (c ∷ cs) o h e = read-plain o c cs (ground arith) ∙ rw e refl

read-limit :
    (n : ℕ) (path : Text) (o : Options)
    → n < 2 ^ 64
    → read_arg (decimal n) (record o { elf_path = some path })
      ≡ record o { elf_path = some path; max_cycles = n }
unfolding positional
read-limit n path o h =
    let (c, cs, e, d) = decimal_split n in
    let before : Options = record o { elf_path = some path } in
    ap (λ (t : Text). read_arg t before) e
    ∙ read-plain before c cs (digit-ne-dash c d)
    ∙ ap (λ (v : ℕ). record before { max_cycles = v }) (ap strtoul (sym e) ∙ strtoul-decimal n h)

read-positionals :
    (path : Text) (limit : Option ℕ) (o : Options)
    → IsPlain path
    → value_or 0 limit < 2 ^ 64
    → positionals o ≡ positionals unset
    → read_args (path ∷ limit_argument limit) o
      ≡ record o { elf_path = some path; max_cycles = value_or 18446744073709551615 limit }
unfolding read_args
read-positionals path none o p h e =
    read-path path o p (ap (λ x. x.0) e)
    ∙ ap (λ (v : ℕ). record o { elf_path = some path; max_cycles = v }) (ap (λ x. x.1) e)
read-positionals path (some n) o p h e =
    ap (read_arg (decimal n)) (read-path path o p (ap (λ x. x.0) e)) ∙ read-limit n path o h

-- From a command line with any of the options of the usage message, in any order and any of them more
-- than once, a path and perhaps a limit behind them, `main` reads what they ask for over the defaults
-- (data in 5 cycles, instructions in one, no cache, prefetch, predictor, trace or limit), the later of
-- two options counting, when the numbers fit their types and the path does not start with a dash.
pub read_args-render :
    (settings : List Setting) (path : Text) (limit : Option ℕ)
    → fit settings ≡ true
    → value_or 0 limit < 2 ^ 64
    → IsPlain path
    → read_args (render settings path limit) default_options ≡ asked settings path limit
unfolding render asked
read_args-render settings path limit h l p =
    read-spelled settings (path ∷ limit_argument limit) unset h
    ∙ read-positionals path limit (applied settings unset) p l (applied-positionals settings unset)
