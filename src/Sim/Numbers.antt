-- ===== src/Sim/Numbers.antt =====
-- belt.go: the two clamps. A test `v > hi` is written `hi < v`.
use ssh_moonminer.Common.{if◌then◌else◌}
use ssh_moonminer.Common.Int.{ℤ, ltb_ℤ}
use ssh_moonminer.Common.Float.{Float}

unfoldable pub clamp : {W : Type 0} ⦃F : Float W⦄ → W → W → W → W
clamp ⦃F⦄ v lo hi = if F.lt v lo then lo else if F.lt hi v then hi else v

unfoldable pub clamp_int : ℤ → ℤ → ℤ → ℤ
clamp_int v lo hi = if ltb_ℤ v lo then lo else if ltb_ℤ hi v then hi else v
