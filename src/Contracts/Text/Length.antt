-- ===== src/Contracts/Text/Length.antt =====
-- How long the text of a number is.
use Prim.Native.String.{len}
use text.Mathlib.TextPositions.{len-append}
use make_we_bet.Prelude.{
  ℕ, zero, suc, ◌+◌, ◌/◌, ◌%◌, ◌≤◌, ◌≡◌, refl, inl, inr, false, arith, ltb, Bool-cases,
}
use make_we_bet.Contracts.Text.{String, concat, digit, show_fuel, to_text}

pub len-concat : (a b : String) → len (concat a b) ≡ len a + len b
len-concat a b = len-append a b

len-digit : (n : ℕ) → len (digit n) ≡ 1
len-digit zero = refl
len-digit (suc zero) = refl
len-digit (suc (suc zero)) = refl
len-digit (suc (suc (suc zero))) = refl
len-digit (suc (suc (suc (suc zero)))) = refl
len-digit (suc (suc (suc (suc (suc zero))))) = refl
len-digit (suc (suc (suc (suc (suc (suc zero)))))) = refl
len-digit (suc (suc (suc (suc (suc (suc (suc zero))))))) = refl
len-digit (suc (suc (suc (suc (suc (suc (suc (suc zero)))))))) = refl
len-digit (suc (suc (suc (suc (suc (suc (suc (suc (suc n))))))))) = refl

len-show_fuel_pos : (f n : ℕ) → 1 ≤ len (show_fuel (suc f) n)
unfolding show_fuel
len-show_fuel_pos f n = elim (Bool-cases (ltb n 10)) [
  | inl p ↦ rw p (omega (arith, len-digit n))
  | inr p ↦
      rw (p, len-append (show_fuel f (n / 10)) (digit (n % 10))) (omega (arith, len-digit (n % 10)))
]

len-show_fuel_many : (f n : ℕ) → 10 ≤ n → 2 ≤ len (show_fuel (suc (suc f)) n)
unfolding show_fuel
len-show_fuel_many f n h =
    let p : ltb n 10 ≡ false = ground arith in
    rw (p, len-append (show_fuel (suc f) (n / 10)) (digit (n % 10)))
      (omega (arith, len-digit (n % 10), len-show_fuel_pos f (n / 10)))

-- The text of a number is not empty.
pub len-to_text_pos : (n : ℕ) → 1 ≤ len (to_text n)
unfolding to_text
len-to_text_pos n = len-show_fuel_pos n n

-- From ten on it has two characters at least.
pub len-to_text_many : (n : ℕ) → 10 ≤ n → 2 ≤ len (to_text n)
unfolding to_text
len-to_text_many zero h = absurd (omega arith)
len-to_text_many (suc n) h = len-show_fuel_many n (suc n) h
