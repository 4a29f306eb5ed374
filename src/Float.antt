-- ===== src/Float.antt =====
-- The `f64` operations that the source uses, as an interface: IEEE 754 arithmetic is the
-- processor's and not code of the repository. `IsOrdered` names the facts about comparisons that
-- some theorems assume; `Fixed` shows that they can be met, NaN included.
use corsair.Base.{
  ℕ, ◌+◌, ◌*◌, ◌/◌, ◌^◌, ◌≤◌, ◌≡◌, ◌⊎◌, Bool, true, false, not, Option, none, some, arith,
  if◌then◌else◌,
}
use corsair.Base.Integers.{
  ℤ, pos, negsuc, ◌+ℤ◌, ◌-ℤ◌, ◌*ℤ◌, neg_ℤ, sub_ℕ, ltb_ℤ, leb_ℤ, unsigned_abs,
}

pub record Float (F : Type 0) : Type 0 where
  -- `a < b` and `a <= b`; `a > b` is `lt b a`, and `a >= b` is `le b a`.
  pub lt : F → F → Bool
  pub le : F → F → Bool
  pub add : F → F → F
  pub sub : F → F → F
  pub mul : F → F → F
  pub div : F → F → F
  pub neg : F → F
  pub abs : F → F
  pub round : F → F
  -- The literal `m / 10^d`: `decimal 125 2` is `1.25`.
  pub decimal : ℕ → ℕ → F
  pub infinity : F
  -- `as f64` of an integer, and the saturating casts `as i64` and `as i32`.
  pub of_int : ℤ → F
  pub to_i64 : F → ℤ
  pub to_i32 : F → ℤ

infix 4 ◌≼◌ ◌≺◌
abbrev pub ◌≼◌ : {F : Type 0} ⦃f : Float F⦄ → F → F → Type 0
◌≼◌ ⦃f⦄ x y = f.le x y ≡ true

abbrev pub ◌≺◌ : {F : Type 0} ⦃f : Float F⦄ → F → F → Type 0
◌≺◌ ⦃f⦄ x y = f.lt x y ≡ true

-- A value that is not NaN.
abbrev pub IsNumber : {F : Type 0} ⦃f : Float F⦄ → F → Type 0
IsNumber x = x ≼ x

-- IEEE 754 comparisons: a total order on the numbers, and false where an operand is NaN.
pub record IsOrdered (F : Type 0) ⦃f : Float F⦄ : Type 0 where
  pub numbers_of_le : (x y : F) → x ≼ y → IsNumber x × IsNumber y
  pub lt-eq-not-le : (x y : F) → IsNumber x → IsNumber y → f.lt x y ≡ not (f.le y x)
  pub le_of_lt : (x y : F) → x ≺ y → x ≼ y
  pub le_total : (x y : F) → IsNumber x → IsNumber y → (x ≼ y) ⊎ (y ≼ x)
  pub le_trans : (low mid high : F) → low ≼ mid → mid ≼ high → low ≼ high
  -- Literals of one scale are numbers, in the order of their values.
  pub decimal_le : (a b d : ℕ) → a ≤ b → f.decimal a d ≼ f.decimal b d

-- Numbers in units of 1/10000, with `none` for NaN: values for tests and witnesses.
abbrev pub Fixed : Type 0
Fixed = Option ℤ

abbrev both : {A : Type 0} → A → (ℤ → ℤ → A) → Fixed → Fixed → A
both d op (some a) (some b) = op a b
both d op _ _ = d

abbrev div_ℤ : ℤ → ℕ → ℤ
div_ℤ (pos n) k = pos (n / k)
div_ℤ (negsuc n) k = sub_ℕ 0 ((n + 1) / k)

abbrev quotient : ℤ → ℤ → Fixed
quotient a b = if leb_ℤ b (pos 0) then none else some (div_ℤ (a *ℤ pos 10_000) (unsigned_abs b))

abbrev map_fixed : (ℤ → ℤ) → Fixed → Fixed
map_fixed g none = none
map_fixed g (some a) = some (g a)

abbrev round_unit : ℤ → ℤ
round_unit (pos n) = pos ((n + 5000) / 10_000)
round_unit (negsuc n) = sub_ℕ 0 ((n + 1 + 5000) / 10_000)

abbrev truncate : Fixed → ℤ
truncate none = pos 0
truncate (some a) = div_ℤ a 10_000

abbrev literal : ℕ → ℕ → Fixed
literal m d = some (pos (m * 10_000 / 10 ^ d))

instance abbrev pub fixed_float : Float Fixed
fixed_float = record {
  lt = both false ltb_ℤ;
  le = both false leb_ℤ;
  add = both none (λ a b. some (a +ℤ b));
  sub = both none (λ a b. some (a -ℤ b));
  mul = both none (λ a b. some (div_ℤ (a *ℤ b) 10_000));
  div = both none quotient;
  neg = map_fixed neg_ℤ;
  abs = map_fixed (λ a. pos (unsigned_abs a));
  round = map_fixed (λ a. round_unit a *ℤ pos 10_000);
  decimal = literal;
  infinity = some (pos (10 ^ 30));
  of_int = λ a. some (a *ℤ pos 10_000);
  to_i64 = truncate;
  to_i32 = truncate;
}

div_mono : (m n k : ℕ) → m ≤ n → m / k ≤ n / k
div_mono m n k h = grind arith

-- The facts about comparisons hold of `Fixed`.
pub Fixed-IsOrdered : IsOrdered Fixed
Fixed-IsOrdered = record {
  numbers_of_le = ground arith;
  lt-eq-not-le = ground arith;
  le_of_lt = ground arith;
  le_trans = ground arith;
  le_total = ground arith;
  decimal_le = λ a b d h. ground (arith, div_mono (a * 10_000) (b * 10_000) (10 ^ d) (omega arith));
}
