-- ===== src/Memory/Tags/Tests.antt =====
-- A tag store of four sets of two lines of 16 bytes.
use cpu_sim.Base.{◌≡◌, refl, arith, true, false, none, some, get_or}
use cpu_sim.Memory.Tags.{
  Tags, create, find_way, install_line, index_of, tag_of, addr_of, line_addr_of, line_at, first_way,
}
use cpu_sim.Memory.Tags.Laws.{IsValid, create-IsValid, find_way-install, install-IsValid}
use cpu_sim.Memory.Tags.Address.{addr_of-line_addr_of}
use cpu_sim.Predictor.{log2_exact, log2_loop}

abbrev small : Tags
small = create 16 4 2 none

missed : find_way small 0x80000014 ≡ none
unfolding find_way create index_of tag_of line_at first_way get_or log2_exact log2_loop
missed = refl

find_way-install_example :
    find_way (install_line (index_of small 0x80000014) 1 0x80000014 true false small) 0x80000014
    ≡ some 1
unfolding create
find_way-install_example =
    find_way-install (create-IsValid 16 2 2 none) 0x80000014 1 true false (omega arith) missed

install-IsValid_example :
    IsValid (install_line (index_of small 0x80000014) 1 0x80000014 true false small) 2
unfolding create
install-IsValid_example =
    install-IsValid (create-IsValid 16 2 2 none) 0x80000014 1 true false (omega arith) missed

-- The tag store with that line filled in, for the cache's tests.
abbrev pub filled : Tags
filled = install_line (index_of small 0x80000014) 1 0x80000014 true false small

pub filled-hit : find_way filled 0x80000014 ≡ some 1
unfolding create
filled-hit =
    find_way-install (create-IsValid 16 2 2 none) 0x80000014 1 true false (omega arith) missed

addr_of-line_addr_of_example :
    addr_of small (index_of small 0x80000014) (tag_of small 0x80000014)
    ≡ line_addr_of small 0x80000014
unfolding create log2_exact log2_loop
addr_of-line_addr_of_example =
    addr_of-line_addr_of small {k = 2} refl (omega arith) refl 0x80000014 (omega arith)
