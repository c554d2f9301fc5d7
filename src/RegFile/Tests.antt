-- ===== src/RegFile/Tests.antt =====
-- The register file at concrete states.
use cpu_sim.Base.{◌≡◌, refl, arith, get_or, not, ◌&&◌, ◌==◌, if◌then◌else◌}
use cpu_sim.RegFile.{empty, read, write}
use cpu_sim.RegFile.Laws.{IsValid, empty-IsValid, read-write, write-IsValid}

read-write_example :
    read (write empty 5 42) 5 ≡ (if (5 == 5) && not (5 == 0) then 42 else read empty 5)
read-write_example = read-write 5 5 42 empty-IsValid (omega arith)

write-IsValid_example : IsValid (write empty 0 42)
write-IsValid_example = write-IsValid 0 42 empty-IsValid (omega arith) (omega arith)

write_drops_x0 : read (write empty 0 42) 0 ≡ 0
unfolding read write empty get_or
write_drops_x0 = refl
