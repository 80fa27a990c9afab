-- ===== src/Ui/Decimal.antt =====
-- What the files under src/ use of the C library for numbers: snprintf with "%u" into a buffer of six
-- bytes, and atoi.
pub mod RoundTrip
use Prim.Native.Nat.{◌/◌, ◌*◌}
use Prim.Native.Char.{Char, code}
use connman_ui.Common.{
  ℕ, zero, suc, ◌+◌, ◌-◌, ◌%◌, ◌<◌, ◌≤◌, ◌^◌, ◌≡◌, refl, sym, ◌∙◌, ap, String, Bool, true, false,
  Bool-cases, inl, inr, ◌&&◌, not, ◌||◌, ◌==◌, ltb, if◌then◌else◌, arith,
}

-- The character of a digit.
abbrev pub digit : ℕ → Char
digit zero = "0"
digit (suc zero) = "1"
digit (suc (suc zero)) = "2"
digit (suc (suc (suc zero))) = "3"
digit (suc (suc (suc (suc zero)))) = "4"
digit (suc (suc (suc (suc (suc zero))))) = "5"
digit (suc (suc (suc (suc (suc (suc zero)))))) = "6"
digit (suc (suc (suc (suc (suc (suc (suc zero))))))) = "7"
digit (suc (suc (suc (suc (suc (suc (suc (suc zero)))))))) = "8"
digit _ = "9"

-- "%u": the digits of a number before a text. The fuel is one more than the number.
pub decimal : ℕ → ℕ → String → String
decimal zero n acc = acc
decimal (suc f) n acc =
    let rest = decimal f (n / 10) (String.◌∷◌ (digit (n % 10)) acc) in
    if ltb n 10 then String.◌∷◌ (digit n) acc else rest

-- The first characters of a text.
unfoldable pub take : ℕ → String → String
take zero s = String.[]
take (suc k) String.[] = String.[]
take (suc k) (String.◌∷◌ c s) = String.◌∷◌ c (take k s)

-- snprintf(value, 6, "%u", n)
unfoldable pub snprintf_6 : ℕ → String
unfolding decimal take
snprintf_6 n = take 5 (decimal (suc n) n String.[])

abbrev is_digit : ℕ → Bool
is_digit c = ltb 47 c && ltb c 58

-- The digits that a text begins with, read behind a number.
scan : String → ℕ → ℕ
scan String.[] n = n
scan (String.◌∷◌ c s) n =
    let rest = scan s (n * 10 + (code c - 48)) in if is_digit (code c) then rest else n

-- isspace
abbrev is_space : ℕ → Bool
is_space c = c == 32 || (ltb 8 c && ltb c 14)

-- After the white space: a sign and the magnitude, where true is a minus.
signed : String → Bool × ℕ
unfolding scan
signed String.[] = (false, 0)
signed (String.◌∷◌ c s) =
    if code c == 45
    then (true, scan s 0)
    else if code c == 43
    then (false, scan s 0)
    else (false, scan (String.◌∷◌ c s) 0)

skip_space : String → String
skip_space String.[] = String.[]
skip_space (String.◌∷◌ c s) =
    let rest = skip_space s in if is_space (code c) then rest else String.◌∷◌ c s

-- atoi, converted to uint8_t; a text for which the int overflows is left out.
unfoldable pub atoi_u8 : String → ℕ
unfolding signed skip_space
atoi_u8 s =
    let (minus, n) = signed (skip_space s) in if minus then (256 - n % 256) % 256 else n % 256

-- The number of the characters of a text.
unfoldable pub size : String → ℕ
size String.[] = 0
size (String.◌∷◌ c s) = suc (size s)
