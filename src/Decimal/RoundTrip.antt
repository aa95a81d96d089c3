-- ===== src/Decimal/RoundTrip.antt =====
-- Reading back a written counter.
use Prim.Native.Char.{code}
use agenda_distribuida.Prelude.{
  ℕ, zero, suc, ◌+◌, ◌*◌, ◌/◌, ◌%◌, ◌≤◌, ◌<◌, ◌≡◌, refl, false, String, some, arith, str_eq,
  Bool-cases, inl, inr, ◌==◌, eq_iff,
}
use agenda_distribuida.Decimal.{max_int64, digit_char, emit, fmt_int, scan, parse_int64_default}

code-digit_char : (d : ℕ) → d < 10 → code (digit_char d) ≡ b'0' + d
unfolding digit_char
code-digit_char zero h = refl
code-digit_char (suc zero) h = refl
code-digit_char (suc (suc zero)) h = refl
code-digit_char (suc (suc (suc zero))) h = refl
code-digit_char (suc (suc (suc (suc zero)))) h = refl
code-digit_char (suc (suc (suc (suc (suc zero))))) h = refl
code-digit_char (suc (suc (suc (suc (suc (suc zero)))))) h = refl
code-digit_char (suc (suc (suc (suc (suc (suc (suc zero))))))) h = refl
code-digit_char (suc (suc (suc (suc (suc (suc (suc (suc zero)))))))) h = refl
code-digit_char (suc (suc (suc (suc (suc (suc (suc (suc (suc zero))))))))) h = refl
code-digit_char (suc (suc (suc (suc (suc (suc (suc (suc (suc (suc d)))))))))) h =
    absurd (omega arith)

scan-digit :
    (n d : ℕ) (s : String) → d < 10 → scan n (String.◌∷◌ (digit_char d) s) ≡ scan (n * 10 + d) s
unfolding scan
scan-digit n d s h = ground (arith, code-digit_char d h)

scan-emit : (f n : ℕ) (out : String) → n ≤ f → scan 0 (emit f n out) ≡ scan n out
unfolding emit
scan-emit zero n out h = rw (omega_zero n h) refl
  where
    omega_zero : (m : ℕ) → m ≤ 0 → m ≡ 0
    omega_zero m le = omega arith
scan-emit (suc f) n out h = ground (
  arith,
  scan-emit f (n / 10) (String.◌∷◌ (digit_char (n % 10)) out),
  scan-digit (n / 10) (n % 10) out,
)

suc_ne_zero : (n : ℕ) → (suc n == 0) ≡ false
suc_ne_zero n = ground arith

scan-fmt_int : (n : ℕ) → scan 0 (fmt_int n) ≡ some n
unfolding fmt_int scan
scan-fmt_int zero = refl
scan-fmt_int (suc n) = rw (suc_ne_zero n) (scan-emit (suc n) (suc n) "" (omega arith))

scan_text_ne_empty : (s : String) (n : ℕ) → scan 0 s ≡ some (suc n) → str_eq s "" ≡ false
unfolding scan
scan_text_ne_empty s n h = elim (Bool-cases (str_eq s "")) [
  | inl e ↦ cc (h, (eq_iff s "").0 e)
  | inr e ↦ e
]

fmt_int-ne_empty : (n : ℕ) → str_eq (fmt_int n) "" ≡ false
unfolding fmt_int
fmt_int-ne_empty zero = refl
fmt_int-ne_empty (suc n) = scan_text_ne_empty (fmt_int (suc n)) n (scan-fmt_int (suc n))

-- A counter below 2^63 reads back as it was written, whatever the default is.
pub parse-fmt_int : (n def : ℕ) → n ≤ max_int64 → parse_int64_default (fmt_int n) def ≡ n
unfolding parse_int64_default
parse-fmt_int n def h = rw (fmt_int-ne_empty n) (rw (scan-fmt_int n) (ground arith))
