-- ===== src/Base/Whole.antt =====
-- Whole numbers in place of floats, for runs of the code on concrete inputs.
use Prim.Native.Nat.{ℕ, ◌+◌, ◌-◌, ◌/◌}
use redops.Base.Lists.{length, sum_of}
use redops.Base.Numbers.{pos, Float}
use redops.Base.Tests.{leb, ltb}

instance abbrev pub whole : Float ℕ
whole = record {
  nought = 0;
  add = λ a b. a + b;
  ge = λ a b. leb b a;
  gt = λ a b. ltb b a;
  mean = λ xs. sum_of xs / length xs;
  ratio = λ a b. a / b;
  millis = λ end begun. pos ((end - begun) / 1000);
}
