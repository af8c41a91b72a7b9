-- ===== src/Http/Number.antt =====
-- JavaScript numbers, as fractions. What `Number(text)` gives may also be NaN or infinite.
use enterprise_crm.Common.{
  ℕ, zero, suc, ◌+◌, ◌-◌, ◌*◌, ◌/◌, ◌%◌, Bool, true, false, max, min, eqb, ltb,
}

-- `finite negative n d` is n / (d + 1), with a minus sign if `negative`.
pub data JsNumber : Type 0 where
  not_a_number infinite : JsNumber
  finite : Bool → ℕ → ℕ → JsNumber

abbrev pub whole : ℕ → JsNumber
whole n = finite false n 0

-- `negsuc n` is -(n + 1).
pub data ℤ : Type 0 where
  pos negsuc : ℕ → ℤ

abbrev pub negate : ℕ → ℤ
negate zero = pos 0
negate (suc n) = negsuc n

-- `Math.round(n / d)`: to the nearest integer, and a half up.
unfoldable pub math_round : Bool → ℕ → ℕ → ℤ
math_round false n d = pos ((2 * n + d) / (2 * d))
math_round true n d = negate ((2 * n + d - 1) / (2 * d))

-- `Math.min(Math.max(z, lo), hi)` for bounds that are not negative.
unfoldable pub math_clamp : ℕ → ℕ → ℤ → ℕ
math_clamp lo hi (pos n) = min (max n lo) hi
math_clamp lo hi (negsuc n) = min lo hi

unfoldable pub is_integer : JsNumber → Bool
is_integer (finite negative n d) = eqb (n % suc d) 0
is_integer _ = false

-- `x > 0`
unfoldable pub is_positive : JsNumber → Bool
is_positive (finite false n d) = ltb 0 n
is_positive (finite true n d) = false
is_positive infinite = true
is_positive not_a_number = false
