-- ===== src/Predictor/Tests.antt =====
-- The predictor at concrete addresses.
use cpu_sim.Base.{ℕ, ◌+◌, ◌/◌, ◌*◌, ◌≡◌, refl, true, false, get_or, set}
use cpu_sim.Predictor.{create, predict, update, btb_index, btb_tag, log2_exact}
use cpu_sim.Predictor.Laws.{IsValid, create-IsValid, update-IsValid, predict-update_twice}
use cpu_sim.Predictor.Laws.{predict-target, TargetsAre, update-TargetsAre, create-TargetsAre}

predict-update_twice_example :
    predict (update (update (create 4 2) 0x80 true true 0x40) 0x80 true true 0x40) 0x80
    ≡ record { taken = true; target = 0x40 }
predict-update_twice_example = predict-update_twice (create-IsValid 2 1) 0x80 true 0x40 0x40

update-IsValid_example : IsValid (update (create 4 2) 0x80 true true 0x40) 2 1
update-IsValid_example = update-IsValid (create-IsValid 2 1) 0x80 true true 0x40

abbrev ahead : ℕ → ℕ
ahead word = word * 4 + 64

update-TargetsAre_example : TargetsAre ahead (update (create 4 2) 0x80 false true 0xc0)
update-TargetsAre_example =
    update-TargetsAre (create-IsValid 2 1) ahead 0x80 false true 0xc0 (create-TargetsAre ahead 2 1)
      refl

trained-TargetsAre : TargetsAre ahead (update (create 4 2) 0x80 false true 0xc0)
trained-TargetsAre =
    update-TargetsAre (create-IsValid 2 1) ahead 0x80 false true 0xc0 (create-TargetsAre ahead 2 1)
      refl

trained_taken : (predict (update (create 4 2) 0x80 false true 0xc0) 0x80).taken ≡ true
unfolding predict update create btb_index btb_tag get_or set log2_exact
trained_taken = refl

predict-target_example :
    (predict (update (create 4 2) 0x80 false true 0xc0) 0x80).target ≡ ahead (0x80 / 4)
predict-target_example =
    predict-target ahead (update (create 4 2) 0x80 false true 0xc0) 0x80 trained-TargetsAre
      trained_taken
