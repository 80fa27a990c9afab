-- ===== src/Ui/Decimal/RoundTrip.antt =====
-- The numbers that src/settings.c shows are whole, and are read back as they were.
use Prim.Native.Nat.{◌/◌, ◌*◌}
use Prim.Native.Char.{code}
use connman_ui.Common.{
  ℕ, zero, suc, ◌+◌, ◌%◌, ◌<◌, ◌≤◌, ◌^◌, ◌≡◌, refl, sym, ◌∙◌, ap, String, Bool-cases, inl, inr, ltb,
  arith,
}
use connman_ui.Ui.Decimal.{digit, decimal, size, take, snprintf_6, scan, atoi_u8}

code-digit : (d : ℕ) → d < 10 → code (digit d) ≡ 48 + d
code-digit zero h = refl
code-digit (suc zero) h = refl
code-digit (suc (suc zero)) h = refl
code-digit (suc (suc (suc zero))) h = refl
code-digit (suc (suc (suc (suc zero)))) h = refl
code-digit (suc (suc (suc (suc (suc zero))))) h = refl
code-digit (suc (suc (suc (suc (suc (suc zero)))))) h = refl
code-digit (suc (suc (suc (suc (suc (suc (suc zero))))))) h = refl
code-digit (suc (suc (suc (suc (suc (suc (suc (suc zero)))))))) h = refl
code-digit (suc (suc (suc (suc (suc (suc (suc (suc (suc d))))))))) h = ground arith

-- Reading on over a digit.
scan-digit : (d n : ℕ) (s : String) → d < 10 → scan (String.◌∷◌ (digit d) s) n ≡ scan s (n * 10 + d)
unfolding scan
scan-digit d n s h = ground (arith, code-digit d h)

scan-decimal : (f n : ℕ) (acc : String) → n < f → scan (decimal f n acc) 0 ≡ scan acc n
unfolding decimal
scan-decimal zero n acc h = absurd (omega arith)
scan-decimal (suc f) n acc h = elim (Bool-cases (ltb n 10)) [
  | inl small ↦ rw small (scan-digit n 0 acc (ground arith) ∙ ap (scan acc) (omega arith))
  | inr big ↦ rw big (
      scan-decimal f (n / 10) (String.◌∷◌ (digit (n % 10)) acc) (ground arith)
      ∙ scan-digit (n % 10) (n / 10) acc (omega arith)
      ∙ ap (scan acc) (omega arith))
]

size-decimal :
    (k f n : ℕ) (acc : String) → n < 10 ^ suc k → n < f → size (decimal f n acc) ≤ suc k + size acc
unfolding decimal size
size-decimal k zero n acc h m = absurd (omega arith)
size-decimal zero (suc f) n acc h m = ground arith
size-decimal (suc k) (suc f) n acc h m =
    ground (arith, size-decimal k f (n / 10) (String.◌∷◌ (digit (n % 10)) acc))

take_all : (k : ℕ) (s : String) → size s ≤ k → take k s ≡ s
unfolding take size
take_all zero String.[] h = refl
take_all zero (String.◌∷◌ c s) h = absurd (omega arith)
take_all (suc k) String.[] h = refl
take_all (suc k) (String.◌∷◌ c s) h = ap (String.◌∷◌ c) (take_all k s (omega arith))

digit_first :
    (f n : ℕ) (acc : String)
    → (n < f)
    → (d : ℕ) × (s : String) × (d < 10) × (decimal f n acc ≡ String.◌∷◌ (digit d) s)
unfolding decimal
digit_first zero n acc h = absurd (omega arith)
digit_first (suc f) n acc h = elim (Bool-cases (ltb n 10)) [
  | inl small ↦ (n, acc, ground arith, rw small)
  | inr big ↦
      let (d, s, b, e) = digit_first f (n / 10) (String.◌∷◌ (digit (n % 10)) acc) (ground arith) in
      (d, s, b, rw big e)
]

-- A text that begins with a digit has no white space and no sign before it.
atoi-digit :
    (d : ℕ) (s : String)
    → d < 10
    → atoi_u8 (String.◌∷◌ (digit d) s) ≡ scan (String.◌∷◌ (digit d) s) 0 % 256
unfolding atoi_u8
atoi-digit d s h = ground (arith, code-digit d h)

-- A 16-bit number is shown whole: its digits are five at most, and the buffer cuts none of them off.
pub snprintf_whole :
    (n : ℕ) → n < 2 ^ 16 → (snprintf_6 n ≡ decimal (suc n) n String.[]) × (size (snprintf_6 n) ≤ 5)
unfolding snprintf_6 size
snprintf_whole n h =
    let short : size (decimal (suc n) n String.[]) ≤ 5 =
      size-decimal 4 (suc n) n String.[] (omega arith) (omega arith) in
    let whole = take_all 5 (decimal (suc n) n String.[]) short in (whole, rw whole short)

atoi-scan :
    (t s : String) (d n : ℕ)
    → (t ≡ String.◌∷◌ (digit d) s)
    → d < 10
    → scan t 0 ≡ n
    → n < 256
    → atoi_u8 t ≡ n
atoi-scan t s d n e b h k =
    ap atoi_u8 e
    ∙ atoi-digit d s b
    ∙ ap (λ (x : ℕ). x % 256) (ap (λ x. scan x 0) (sym e) ∙ h)
    ∙ omega arith

scan-nil : (n : ℕ) → scan String.[] n ≡ n
unfolding scan
scan-nil n = refl

-- What is shown of a byte is read back as that byte.
pub atoi-snprintf : (n : ℕ) → n < 256 → atoi_u8 (snprintf_6 n) ≡ n
atoi-snprintf n h =
    let (d, s, b, e) = digit_first (suc n) n String.[] (omega arith) in
    ap atoi_u8 (snprintf_whole n (omega arith)).0
    ∙ atoi-scan (decimal (suc n) n String.[]) s d n e b
        (scan-decimal (suc n) n String.[] (omega arith) ∙ scan-nil n) h
