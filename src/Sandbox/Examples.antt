-- ===== src/Sandbox/Examples.antt =====
-- A process that limits itself to 100 and becomes user 1000.
use iojxd.Prelude.{ℕ, pos, negsuc, ◌-◌, ◌^◌, ◌≡◌, ◌≤◌, refl, List, [], ◌∷◌, arith}
use iojxd.Sandbox.{
  Call, limiting_d, limiting, setting_uid, setting_gid, reslimit_d, reslimit, setuid, setgid, run,
}
use iojxd.Sandbox.Model.{Process, kernel}
use iojxd.Sandbox.Confined.{confined_lem}

abbrev unlimited : Process
unlimited = record { uid = 0; soft = λ r. 2 ^ 64 - 1; hard = λ r. 2 ^ 64 - 1 }

abbrev prepared : Process
prepared = reslimit kernel 7 (pos 100) unlimited

-- A try to be unlimited again, and one to become root again, which fail, and a lower limit.
abbrev calls : List Call
calls =
    limiting 7 (negsuc 0)
    ∷ setting_uid 0
    ∷ limiting_d 7 (pos 200) (pos 200)
    ∷ limiting_d 7 (pos 10) (pos 50)
    ∷ setting_gid 1
    ∷ []

confined_lem_example :
    let s = run kernel calls (setuid kernel 1000 prepared).1 in
    let ended : ℕ × ℕ = (kernel.soft 7 s, kernel.hard 7 s) in
    (ended ≡ (10, 50))
    × (kernel.soft 7 s ≤ kernel.hard 7 s)
    × (kernel.hard 7 s ≤ kernel.hard 7 prepared)
unfolding reslimit reslimit_d setuid
confined_lem_example =
    confined_lem kernel 1000 calls prepared refl (omega arith) refl (λ r. omega arith)
      (omega arith, (tt, ((omega arith, omega arith), ((omega arith, omega arith), (tt, tt))))) 7
      refl

-- The limits in the end.
ended_at :
    (kernel.hard 7 (run kernel calls (setuid kernel 1000 prepared).1) ≡ 50)
    × (kernel.soft 7 (run kernel calls (setuid kernel 1000 prepared).1) ≡ 10)
unfolding reslimit reslimit_d setuid setgid
ended_at = (refl, refl)
