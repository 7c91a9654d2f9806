-- ===== src/Json/Order.antt =====
-- The order of `Array.prototype.sort` on texts: by UTF-16 code units.
use finlabs_explore.Prelude.{
  ℕ, ◌+◌, ◌-◌, ◌/◌, ◌%◌, String, code, Bool, true, false, List, [], ◌∷◌, ◌++◌, ltb, ◌=ℕ=◌,
  if◌then◌else◌,
}

-- The UTF-16 code units of one code point.
code_units : ℕ → List ℕ
code_units n =
    if ltb n 0x10000
    then n ∷ []
    else (0xd800 + (n - 0x10000) / 1024) ∷ (0xdc00 + (n - 0x10000) % 1024) ∷ []

unfoldable pub utf16 : String → List ℕ
unfolding code_units
utf16 String.[] = []
utf16 (String.◌∷◌ c s) = code_units (code c) ++ utf16 s

unfoldable pub units_le : List ℕ → List ℕ → Bool
units_le [] ys = true
units_le (x ∷ xs) [] = false
units_le (x ∷ xs) (y ∷ ys) = if x =ℕ= y then units_le xs ys else ltb x y

unfoldable pub key_le : String → String → Bool
unfolding utf16 units_le
key_le a b = units_le (utf16 a) (utf16 b)
