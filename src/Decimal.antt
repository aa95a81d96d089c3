-- ===== src/Decimal.antt =====
-- `fmtInt`, `parseInt64` and `parseInt64Default` of consensus.go: decimal texts of counters.
-- A counter is a natural number below 2^63; a text with a minus sign, which is never written, is
-- refused.
pub mod RoundTrip
use Prim.Native.Char.{Char, code}
use Prim.Native.String
use agenda_distribuida.Prelude.{
  ℕ, zero, suc, ◌+◌, ◌-◌, ◌*◌, ◌/◌, ◌%◌, ◌^◌, Bool, ◌&&◌, String, Option, none, some, leb, ltb,
  ◌==◌, if◌then◌else◌, str_eq,
}

abbrev pub max_int64 : ℕ
max_int64 = 2 ^ 63 - 1

unfoldable pub digit_char : ℕ → Char
digit_char d =
    if d == 0
    then "0"
    else if d == 1
    then "1"
    else if d == 2
    then "2"
    else if d == 3
    then "3"
    else if d == 4
    then "4"
    else if d == 5
    then "5"
    else if d == 6
    then "6"
    else if d == 7
    then "7"
    else if d == 8
    then "8"
    else "9"

-- One round for each digit, the last first; the fuel is the number itself.
unfoldable pub emit : ℕ → ℕ → String → String
emit zero n out = out
emit (suc f) n out =
    let rest = emit f (n / 10) (String.◌∷◌ (digit_char (n % 10)) out) in
    if n == 0 then out else rest

unfoldable pub fmt_int : ℕ → String
fmt_int n = if n == 0 then "0" else emit n n ""

unfoldable pub scan : ℕ → String → Option ℕ
scan n String.[] = some n
scan n (String.◌∷◌ c s) =
    let rest = scan (n * 10 + (code c - b'0')) s in
    if leb b'0' (code c) && leb (code c) b'9' then rest else none

unfoldable pub parse_int64 : String → Option ℕ
unfolding scan
parse_int64 s =
    if str_eq s ""
    then none
    else elim (scan 0 s) [ none ↦ none | some n ↦ if leb n max_int64 then some n else none ]

unfoldable pub parse_int64_default : String → ℕ → ℕ
unfolding parse_int64
parse_int64_default s def =
    if str_eq s "" then def else elim (parse_int64 s) [ none ↦ def | some v ↦ v ]
