-- ===== src/Text/Hex.antt =====
-- `UUID.hex`: the value in lower-case hexadecimal digits, padded to a width.
use vof_backend.Prelude.{
  length, take, drop, All, length-append, All-append, ltb, ◌==◌, if◌then◌else◌, ℕ, zero, suc, ◌+◌,
  ◌/◌, ◌%◌, ◌<◌, ◌≡◌, refl, false, [], ◌∷◌, ◌++◌, arith,
}
use vof_backend.Text.{Text, is_space, IsHex, ascii_upper}
use vof_backend.Text.Strip.{NoSpace}

hex_digit : ℕ → ℕ
hex_digit d = if ltb d 10 then d + 48 else d + 87

unfoldable pub hex_text : ℕ → ℕ → Text
unfolding hex_digit
hex_text zero n = []
hex_text (suc w) n = hex_text w (n / 16) ++ (hex_digit (n % 16) ∷ [])

hex_digit-IsHex : (d : ℕ) → d < 16 → IsHex (hex_digit d)
unfolding hex_digit
hex_digit-IsHex d h = ground arith

pub hex_text-IsHex : (w n : ℕ) → All IsHex (hex_text w n)
unfolding hex_text
hex_text-IsHex zero n = tt
hex_text-IsHex (suc w) n =
    All-append IsHex (hex_text w (n / 16)) _ (hex_text-IsHex w (n / 16))
      (hex_digit-IsHex (n % 16) (omega arith), tt)

-- An upper-case hexadecimal digit is one, is no space and no closing bracket, and stays upper-case.
pub upper_of_IsHex :
    (c : ℕ)
    → IsHex c
    → IsHex (ascii_upper c)
      × NoSpace (ascii_upper c)
      × ((ascii_upper c == 93) ≡ false)
      × (ascii_upper (ascii_upper c) ≡ ascii_upper c)
unfolding is_space
upper_of_IsHex c h = ground arith

pub length-hex_text : (w n : ℕ) → length (hex_text w n) ≡ w
unfolding hex_text
length-hex_text zero n = refl
length-hex_text (suc w) n = omega (
  arith,
  length-append (hex_text w (n / 16)) (hex_digit (n % 16) ∷ []),
  length-hex_text w (n / 16),
)

-- `str(uuid)`: the digits in groups of 8, 4, 4, 4 and 12.
unfoldable pub uuid_text : ℕ → Text
uuid_text n =
    let h = hex_text 32 n in
    take 8 h
    ++ (45
        ∷ (take 4 (drop 8 h)
            ++ (45 ∷ (take 4 (drop 12 h) ++ (45 ∷ (take 4 (drop 16 h) ++ (45 ∷ drop 20 h)))))))

-- `str` of a number below 10 ^ 20: twenty decimal digits without the zeros at the front.
unfoldable pub decimal_digits : ℕ → ℕ → Text
decimal_digits zero n = []
decimal_digits (suc w) n = decimal_digits w (n / 10) ++ ((n % 10 + 48) ∷ [])

unfoldable pub drop_zeros : Text → Text
drop_zeros [] = []
drop_zeros (c ∷ []) = c ∷ []
drop_zeros (c ∷ d ∷ s) = let rest = drop_zeros (d ∷ s) in if c == 48 then rest else c ∷ d ∷ s

unfoldable pub decimal_text : ℕ → Text
unfolding decimal_digits drop_zeros
decimal_text n = drop_zeros (decimal_digits 20 n)
