-- ===== src/Tests/Numbers.antt =====
-- Numbers for the examples: hundredths, as natural numbers. Their order is that of the natural
-- numbers, 0 stands for minus infinity and 100000 for infinity.
use mlcache.Prelude.{ℕ, ◌+◌, ◌-◌, ◌*◌, arith, ltb, leb, ◌==◌, if◌then◌else◌}
use mlcache.Prelude.{◌/◌}
use mlcache.Float.{FloatOps, FloatLaws}

instance abbrev pub hundredths : FloatOps ℕ
hundredths = record {
  le = leb;
  lt = ltb;
  add = λ a b. a + b;
  sub = λ a b. a - b;
  mul = λ a b. a * b / 100;
  div = λ a b. a * 100 / b;
  neg = λ a. 0;
  sqrt = λ a. a;
  of_ℕ = λ n. n * 100;
  decimal = λ d k. if k == 1 then d * 10 else d;
  floor = λ a. a / 100;
  next_up = λ a. a + 1;
  next_down = λ a. a - 1;
  inf = 100000;
  neg_inf = 0;
  is_finite = λ a. ltb a 100000;
}

pub hundredths_laws : FloatLaws hundredths
hundredths_laws = record {
  le_trans = λ a b c h k. ground arith;
  le_total = λ a b h k e. ground arith;
  lt_le = λ a b h. ground arith;
  lt_not_le = λ a b h. ground arith;
  not_le_lt = λ a b h k. ground arith;
  le_left = λ a b h. ground arith;
  le_right = λ a b h. ground arith;
  next_up_le = λ a b h k. ground arith;
  le_next_up = λ a b h. ground arith;
  next_down_lt = λ a b h k. ground arith;
  lt_next_down = λ a b h k. ground arith;
}
