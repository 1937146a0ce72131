-- ===== src/Difficulty/Rounding.antt =====
-- Rounding to a double keeps the order of numbers.
use native.Mathlib.Nat.{
  mul-le-mul, mul-le-mul_right, pow-le-pow_right, one-le-pow, pow-suc, le-div_iff_mul-le,
  div-lt_iff_lt-mul, div-mul-le_self, div-div-eq-div-mul, div-add-mod',
}
use mathlib.Core.Path.{subst}
use make_we_bet.Prelude.{
  ℕ, zero, suc, ◌+◌, ◌*◌, ◌/◌, ◌%◌, ◌^◌, ◌≤◌, ◌<◌, ◌≡◌, ◌⊎◌, ap, sym, ◌∙◌, arith, Bool-cases, inl,
  inr, ltb, leb, if◌then◌else◌,
}
use make_we_bet.Difficulty.Double.{Number, half_even, excess, rounded, plus, times, one}

pow_add : (a b : ℕ) → 2 ^ (a + b) ≡ 2 ^ a * 2 ^ b
pow_add a zero =
    let e : a + 0 ≡ a = omega arith in
    let e' : 2 ^ a ≡ 2 ^ a * 1 = omega arith in ap (λ (x : ℕ). 2 ^ x) e ∙ e'
pow_add a (suc b) =
    let e : a + suc b ≡ suc (a + b) = omega arith in
    ap (λ (x : ℕ). 2 ^ x) e
    ∙ omega (
      arith,
      pow-suc 2 (a + b),
      pow-suc 2 b,
      pow_add a b,
      ap (λ (x : ℕ). 2 ^ a * x) (pow-suc 2 b),
    )

pow_pos : (a : ℕ) → 0 < 2 ^ a
pow_pos a = one-le-pow a 2 (omega arith)

pow_le : {a b : ℕ} → a ≤ b → 2 ^ a ≤ 2 ^ b
pow_le h = pow-le-pow_right {n = 2} (omega arith) h

div_le : (d : ℕ) {n m : ℕ} → 0 < d → n ≤ m → n / d ≤ m / d
div_le d {n} {m} p h = (le-div_iff_mul-le p).1 (omega (arith, div-mul-le_self n d))

-- The choice between a quotient and its successor, by twice the remainder.
chosen_le : (q r d : ℕ) → q ≤ (if ltb r d then q else if ltb d r then suc q else q + q % 2)
chosen_le q r d = ground arith

chosen_le_suc : (q r d : ℕ) → (if ltb r d then q else if ltb d r then suc q else q + q % 2) ≤ suc q
chosen_le_suc q r d = ground arith

chosen_mono :
    (q r r' d : ℕ)
    → r ≤ r'
    → (if ltb r d then q else if ltb d r then suc q else q + q % 2)
      ≤ (if ltb r' d then q else if ltb d r' then suc q else q + q % 2)
chosen_mono q r r' d h = ground arith

half_even_lower : (n d : ℕ) → n / d ≤ half_even n d
half_even_lower n d = chosen_le (n / d) (2 * (n % d)) d

half_even_upper : (n d : ℕ) → half_even n d ≤ suc (n / d)
half_even_upper n d = chosen_le_suc (n / d) (2 * (n % d)) d

half_even_mono : (n m d : ℕ) → 0 < d → n ≤ m → half_even n d ≤ half_even m d
half_even_mono n m d p h = elim (Bool-cases (ltb (n / d) (m / d))) [
  | inl less ↦
      let l : n / d < m / d = ground arith in
      omega (arith, half_even_upper n d, half_even_lower m d, l)
  | inr not_less ↦
      let le : m / d ≤ n / d = ground arith in
      let same : n / d ≡ m / d = omega (arith, div_le d p h, le) in
      let r : n % d ≤ m % d =
        omega (arith, div-add-mod' n d, div-add-mod' m d, ap (λ (x : ℕ). x * d) same, h) in
      rw same (chosen_mono (m / d) (2 * (n % d)) (2 * (m % d)) d (omega (arith, r)))
]

-- A number with an excess is long enough for it.
longer_lower :
    (m q rest : ℕ)
    → 2 ^ (52 + 2 ^ m) ≤ q
    → (0 < rest → 2 ^ (52 + rest) ≤ q / 2 ^ 2 ^ m)
    → 2 ^ (52 + (2 ^ m + rest)) ≤ q
longer_lower m q zero long h =
    let e : 52 + 2 ^ m ≡ 52 + (2 ^ m + 0) = omega arith in subst (λ (x : ℕ). 2 ^ x ≤ q) e long
longer_lower m q (suc rest) long h =
    let k = 2 ^ m in
    let le = (le-div_iff_mul-le (pow_pos k)).0 (h (omega arith)) in
    let e : 2 ^ (52 + suc rest) * 2 ^ k ≡ 2 ^ (52 + (k + suc rest)) =
      sym (pow_add (52 + suc rest) k) ∙ ap (λ (x : ℕ). 2 ^ x) (omega arith) in
    subst (λ (x : ℕ). x ≤ q) e le

excess_lower : (m q : ℕ) → 0 < excess m q → 2 ^ (52 + excess m q) ≤ q
excess_lower zero q h = absurd (omega (arith, h))
excess_lower (suc m) q h = elim (Bool-cases (leb (2 ^ (52 + 2 ^ m)) q)) [
  | inl longer ↦
      let long : 2 ^ (52 + 2 ^ m) ≤ q = ground arith in
      rw (longer, excess) (longer_lower m q (excess m (q / 2 ^ 2 ^ m)) long (excess_lower m _))
  | inr short ↦
      let h' : 0 < excess m q = rw (short, excess) at h in rw (short, excess) (excess_lower m q h')
]

excess_max : (m q : ℕ) → excess m q < 2 ^ m
excess_max zero q = omega arith
excess_max (suc m) q = elim (Bool-cases (leb (2 ^ (52 + 2 ^ m)) q)) [
  | inl longer ↦ rw (longer, excess) (omega (arith, excess_max m (q / 2 ^ 2 ^ m)))
  | inr short ↦ rw (short, excess) (omega (arith, excess_max m q))
]

longer_upper :
    (m q rest : ℕ)
    → (q / 2 ^ 2 ^ m < 2 ^ (53 + rest)) ⊎ (suc rest ≡ 2 ^ m)
    → (q < 2 ^ (53 + (2 ^ m + rest))) ⊎ (suc (2 ^ m + rest) ≡ 2 ^ suc m)
longer_upper m q rest (inl h) =
    let k = 2 ^ m in
    let lt = (div-lt_iff_lt-mul (pow_pos k)).0 h in
    let e : 2 ^ (53 + rest) * 2 ^ k ≡ 2 ^ (53 + (k + rest)) =
      sym (pow_add (53 + rest) k) ∙ ap (λ (x : ℕ). 2 ^ x) (omega arith) in
    inl (subst (λ (x : ℕ). q < x) e lt)
longer_upper m q rest (inr h) = inr (omega (arith, h))

short_upper :
    (m q : ℕ)
    → q < 2 ^ (52 + 2 ^ m)
    → (q < 2 ^ (53 + excess m q)) ⊎ (suc (excess m q) ≡ 2 ^ m)
    → q < 2 ^ (53 + excess m q)
short_upper m q l (inl h) = h
short_upper m q l (inr h) =
    let e : 2 ^ (52 + 2 ^ m) ≡ 2 ^ (53 + excess m q) = ap (λ (x : ℕ). 2 ^ x) (omega (arith, h)) in
    subst (λ (x : ℕ). q < x) e l

-- Unless it is the largest there is, the excess is all that the number has.
excess_upper : (m q : ℕ) → (q < 2 ^ (53 + excess m q)) ⊎ (suc (excess m q) ≡ 2 ^ m)
excess_upper zero q = inr (omega arith)
excess_upper (suc m) q = elim (Bool-cases (leb (2 ^ (52 + 2 ^ m)) q)) [
  | inl longer ↦ rw (longer, excess) (longer_upper m q _ (excess_upper m (q / 2 ^ 2 ^ m)))
  | inr short ↦ rw (short, excess) (inl (short_upper m q (ground arith) (excess_upper m q)))
]

excess_mono : (m q q' : ℕ) → q ≤ q' → excess m q ≤ excess m q'
excess_mono m q q' h = elim (Bool-cases (ltb (excess m q') (excess m q))) [
  | inr not_less ↦ ground arith
  | inl less ↦
      let l : excess m q' < excess m q = ground arith in
      let low = excess_lower m q (omega (arith, l)) in
      elim (excess_upper m q') [
        | inl up ↦
            let le : 2 ^ (53 + excess m q') ≤ 2 ^ (52 + excess m q) = pow_le (omega (arith, l)) in
            absurd (omega (arith, up, le, low, h))
        | inr full ↦ absurd (omega (arith, full, l, excess_max m q))
      ]
]

-- A number with a smaller excess than another one's is rounded below 2 ^ (53 + its excess),
shorter :
    (n d s : ℕ) → 0 < d → n / d < 2 ^ (53 + s) → half_even n (d * 2 ^ s) * 2 ^ s ≤ 2 ^ (53 + s)
shorter n d s p h =
    let e : 2 ^ (53 + s) ≡ 2 ^ 53 * 2 ^ s = pow_add 53 s in
    let h' : n / d < 2 ^ 53 * 2 ^ s = rw e at h in
    let q = (div-lt_iff_lt-mul (pow_pos s)).1 h' in
    let q' : n / (d * 2 ^ s) < 2 ^ 53 = rw (div-div-eq-div-mul n d (2 ^ s)) at q in
    let le : half_even n (d * 2 ^ s) ≤ 2 ^ 53 = omega (arith, q', half_even_upper n (d * 2 ^ s)) in
    rw e (mul-le-mul_right (2 ^ s) le)

-- and one with an excess above 2 ^ (52 + it).
longer : (n d s : ℕ) → 2 ^ (52 + s) ≤ n / d → 2 ^ (52 + s) ≤ half_even n (d * 2 ^ s) * 2 ^ s
longer n d s h =
    let e : 2 ^ (52 + s) ≡ 2 ^ 52 * 2 ^ s = pow_add 52 s in
    let h' : 2 ^ 52 * 2 ^ s ≤ n / d = rw e at h in
    let q = (le-div_iff_mul-le (pow_pos s)).1 h' in
    let q' : 2 ^ 52 ≤ n / (d * 2 ^ s) = rw (div-div-eq-div-mul n d (2 ^ s)) at q in
    let le : 2 ^ 52 ≤ half_even n (d * 2 ^ s) = omega (arith, q', half_even_lower n (d * 2 ^ s)) in
    rw e (mul-le-mul_right (2 ^ s) le)

lt_or_eq : (s t : ℕ) → s ≤ t → (s < t) ⊎ (s ≡ t)
lt_or_eq s t h = elim (Bool-cases (ltb s t)) [
  | inl less ↦ inl (ground arith)
  | inr not_less ↦ inr (ground arith)
]

-- Rounding keeps the order of numbers.
pub rounded_mono : (n m d : ℕ) → 0 < d → n ≤ m → rounded n d ≤ rounded m d
unfolding rounded
rounded_mono n m d p h =
    let s = excess 11 (n / d) in
    let t = excess 11 (m / d) in
    let le : s ≤ t = excess_mono 11 (n / d) (m / d) (div_le d p h) in
    elim (lt_or_eq s t le) [
      | inr e ↦
          let pf : 0 < d * 2 ^ t = mul-le-mul p (pow_pos t) in
          rw e (mul-le-mul_right (2 ^ t) (half_even_mono n m (d * 2 ^ t) pf h))
      | inl less ↦ elim (excess_upper 11 (n / d)) [
        | inl up ↦
            let a = shorter n d s p up in
            let b = longer m d t (excess_lower 11 (m / d) (omega (arith, less))) in
            let c : 2 ^ (53 + s) ≤ 2 ^ (52 + t) = pow_le (omega (arith, less)) in
            omega (arith, a, b, c)
        | inr full ↦ absurd (omega (arith, full, less, excess_max 11 (m / d)))
      ]
    ]

pub plus_mono : {a a' b b' : Number} → a ≤ a' → b ≤ b' → plus a b ≤ plus a' b'
unfolding plus
plus_mono {a} {a'} {b} {b'} h k =
    rounded_mono (a + b) (a' + b') 1 (omega arith) (omega (arith, h, k))

pub times_mono : {a a' : Number} (b : Number) → a ≤ a' → times a b ≤ times a' b
unfolding times
times_mono {a} {a'} b h = rounded_mono (a * b) (a' * b) one (pow_pos 1074) (mul-le-mul_right b h)
