-- ===== src/Sim/Dice.antt =====
-- rng.go: Go's math/rand is a parameter, and so are the functions of package math that floats have
-- beside the ones of `Float`, and two formats of package fmt.
use Prim.Native.Nat.{bit_xor}
use ssh_moonminer.Common.{ℕ, ◌+◌, ◌-◌, ◌*◌, ◌%◌, ◌^◌, String, List, leb, if◌then◌else◌}
use ssh_moonminer.Common.Int.{ℤ, pos, negsuc}
use ssh_moonminer.Sim.State.{State, ActiveRun}

-- rand.Rand, as the value that the next draw starts from.
pub record Random (W R : Type 0) : Type 0 where
  pub seeded : ℤ → R  -- rand.New(rand.NewSource(n))
  pub float64 : R → W × R
  pub intn : ℤ → R → ℤ × R
  pub perm : ℤ → R → List ℤ × R

pub record Math (W : Type 0) : Type 0 where
  pub sin : W → W
  pub fmod : W → W → W  -- math.Mod
  pub fabs : W → W
  pub pi : W
  pub infinity : W
  pub show_int : ℤ → String  -- %d
  pub show_rounded : W → String  -- %.0f

-- uint64(n) and int64(n)
unfoldable pub to_uint64 : ℤ → ℕ
to_uint64 (pos n) = n % 2 ^ 64
to_uint64 (negsuc n) = 2 ^ 64 - 1 - n % 2 ^ 64

unfoldable pub to_int64 : ℕ → ℤ
to_int64 n = if leb (2 ^ 63) n then negsuc (2 ^ 64 - 1 - n) else pos n

module _ {W R : Type 0} (G : Random W R) where
  unfoldable pub new_rng : ℕ → ℕ → R
  unfolding to_int64
  new_rng seed count = G.seeded (to_int64 (bit_xor seed (count * 0x9E3779B97F4A7C15 % 2 ^ 64)))

  unfoldable pub run_rng : State W → ActiveRun W → ℕ → R
  unfolding new_rng to_uint64
  run_rng s run salt =
      new_rng s.seed ((to_uint64 run.asteroid_id * 1000003 + run.tick_count * 97 + salt) % 2 ^ 64)
