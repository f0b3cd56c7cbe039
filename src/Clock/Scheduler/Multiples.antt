-- ===== src/Clock/Scheduler/Multiples.antt =====
-- Multiples of an interval: what `next_boundary` computes.
use native.Mathlib.Nat.{div-add-mod', mod-lt, mul-mod_left, add-mod_right}
use cvf.Prelude.{
  ℕ, ◌+◌, ◌*◌, ◌/◌, ◌%◌, ◌≤◌, ◌<◌, ◌≡◌, ◌∙◌, ◌⊎◌, inl, inr, false, ◌==◌, ==→eq, Bool-cases,
  if◌then◌else◌, tests, arith,
}

-- `n` is the first multiple of `interval` after `c`.
pub record IsNext (c interval n : ℕ) : Type 0 where
  pub positive : 0 < interval
  pub after : c < n
  pub near : n ≤ c + interval
  pub multiple : n % interval ≡ 0

-- Two multiples of `i` are equal or `i` apart.
mul_gap : (i p q : ℕ) → p * i < q * i → p * i + i ≤ q * i
mul_gap i p q h = elim (lt_or_le p q) [ inl l ↦ grind arith | inr g ↦ absurd (grind arith) ]
  where
    lt_or_le : (a b : ℕ) → (a < b) ⊎ (b ≤ a)
    lt_or_le a b = omega arith

multiple_gap : (i t n : ℕ) → t % i ≡ 0 → n % i ≡ 0 → t < n → t + i ≤ n
multiple_gap i t n ht hn l =
    let et : t / i * i ≡ t = omega (arith, div-add-mod' t i) in
    let en : n / i * i ≡ n = omega (arith, div-add-mod' n i) in
    omega (arith, mul_gap i (t / i) (n / i) (omega arith))

pub not_multiple : (c i n t : ℕ) → IsNext c i n → c < t → t < n → (t % i == 0) ≡ false
not_multiple c i n t h lo hi = elim (Bool-cases (t % i == 0)) [
  | inl e ↦ absurd (omega (arith, multiple_gap i t n (==→eq _ _ e) h.multiple hi, h.near))
  | inr e ↦ e
]

div_bounds : (c i q : ℕ) → 0 < i → q * i + c % i ≡ c → (c < (q + 1) * i) × ((q + 1) * i ≤ c + i)
div_bounds c i q h e = omega (arith, mod-lt c h)

pub IsNext-of_div : (c i : ℕ) → 0 < i → IsNext c i ((c / i + 1) * i)
IsNext-of_div c i h =
    let b = div_bounds c i (c / i) h (div-add-mod' c i) in
    record { positive = h; after = b.0; near = b.1; multiple = mul-mod_left (c / i + 1) i }

pub IsNext-wait : (c i n b : ℕ) → IsNext c i n → c ≤ b → b < n → IsNext b i n
IsNext-wait c i n b h lo hi = record {
  positive = h.positive;
  after = hi;
  near = omega (arith, h.near);
  multiple = h.multiple;
}

-- There is one first multiple.
pub IsNext-unique : (c i m n : ℕ) → IsNext c i m → IsNext c i n → m ≡ n
IsNext-unique c i m n h k = ground (arith, multiple_gap i m n, multiple_gap i n m)

-- A boundary that is passed moves to the next multiple; one that is not stays.
pub IsNext-pass :
    (c i n b : ℕ) → IsNext c i n → c ≤ b → b ≤ n → IsNext b i (if n == b then n + i else n)
IsNext-pass c i n b h lo hi = elim (Bool-cases (n == b)) [
  | inl e ↦ rw e (record {
    positive = h.positive;
    after = omega (tests, h.positive);
    near = omega (tests, e);
    multiple = add-mod_right n i ∙ h.multiple;
  })
  | inr e ↦ rw e (record {
    positive = h.positive;
    after = omega (tests, e);
    near = omega (arith, h.near);
    multiple = h.multiple;
  })
]
