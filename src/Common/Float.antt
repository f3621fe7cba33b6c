-- ===== src/Common/Float.antt =====
-- Go's `float64` is not modelled bit by bit: its operations are a parameter, and a theorem that
-- needs one of their laws names it. `Whole` is a carrier on which they run.
use mathlib.Core.Bool.{Bool, false}
use Prim.Native.Nat.{◌^◌}
use ssh_moonminer.Common.Int.{
  ℤ, pos, ◌+ℤ◌, ◌-ℤ◌, ◌*ℤ◌, ◌/ℤ◌, ltb_ℤ, leb_ℤ, ◌==ℤ◌, max_ℤ, min_ℤ, pos_part,
}

pub record Float (W : Type 0) : Type 0 where
  pub of_int : ℤ → W  -- float64(n)
  pub add : W → W → W
  pub sub : W → W → W
  pub mul : W → W → W
  pub div : W → W → W
  pub pow : W → W → W  -- math.Pow
  pub fmin : W → W → W  -- math.Min
  pub fmax : W → W → W  -- math.Max
  pub lt : W → W → Bool
  pub le : W → W → Bool
  pub eq : W → W → Bool
  pub is_nan : W → Bool
  pub round : W → ℤ  -- int(math.Round(x))
  pub ceil : W → ℤ  -- int(math.Ceil(x))
  pub trunc : W → ℤ  -- int(x)
  pub micro : W  -- the constant 0.000001
  pub largest : W  -- math.MaxFloat64

-- Whole numbers under the names of the float operations.
pub record Whole : Type 0 where
  pub value : ℤ

abbrev pub whole : ℤ → Whole
whole n = record { value = n }

instance abbrev pub whole_float : Float Whole
whole_float = record {
  of_int = whole;
  add = λ a b. whole (a.value +ℤ b.value);
  sub = λ a b. whole (a.value -ℤ b.value);
  mul = λ a b. whole (a.value *ℤ b.value);
  div = λ a b. whole (a.value /ℤ b.value);
  pow = λ a b. whole (pos (pos_part a.value ^ pos_part b.value));
  fmin = λ a b. whole (min_ℤ a.value b.value);
  fmax = λ a b. whole (max_ℤ a.value b.value);
  lt = λ a b. ltb_ℤ a.value b.value;
  le = λ a b. leb_ℤ a.value b.value;
  eq = λ a b. a.value ==ℤ b.value;
  is_nan = λ a. false;
  round = λ a. a.value;
  ceil = λ a. a.value;
  trunc = λ a. a.value;
  micro = whole (pos 0);
  largest = whole (pos 1_000_000_000);
}
