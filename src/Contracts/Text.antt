-- ===== src/Contracts/Text.antt =====
-- Texts: `===` on strings, and `String(n)` for a number.
pub mod Length
use Prim.Native.String.{String, ◌++◌ as ◌<>◌}
use text.Mathlib.Text.{◌==◌ as str_eq}
use text.Mathlib.TextEquality.{eq_iff}
use make_we_bet.Prelude.{◌≡◌, refl, true, ℕ, zero, suc, ◌/◌, ◌%◌, Bool, ltb, if◌then◌else◌}
pub use Prim.Native.String.{String}

infix 50 ◌===◌
abbrev pub ◌===◌ : String → String → Bool
a === b = str_eq a b

abbrev pub concat : String → String → String
concat a b = ◌<>◌ a b

abbrev pub digit : ℕ → String
digit zero = "0"
digit (suc zero) = "1"
digit (suc (suc zero)) = "2"
digit (suc (suc (suc zero))) = "3"
digit (suc (suc (suc (suc zero)))) = "4"
digit (suc (suc (suc (suc (suc zero))))) = "5"
digit (suc (suc (suc (suc (suc (suc zero)))))) = "6"
digit (suc (suc (suc (suc (suc (suc (suc zero))))))) = "7"
digit (suc (suc (suc (suc (suc (suc (suc (suc zero)))))))) = "8"
digit _ = "9"

-- The decimal digits of `n`, the fuel being above `n`.
pub show_fuel : ℕ → ℕ → String
show_fuel zero n = ""
show_fuel (suc f) n =
    let front = show_fuel f (n / 10) in if ltb n 10 then digit n else concat front (digit (n % 10))

-- `String(n)`
unfoldable pub to_text : ℕ → String
unfolding show_fuel
to_text n = show_fuel (suc n) n

pub ===→eq : (s t : String) → (s === t) ≡ true → s ≡ t
===→eq s t h = (eq_iff s t).0 h

pub ===_refl : (s : String) → (s === s) ≡ true
===_refl s = (eq_iff s s).1 refl
