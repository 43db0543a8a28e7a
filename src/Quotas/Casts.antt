-- ===== src/Quotas/Casts.antt =====
-- Python's `int()` and `float()` of a policy value, as quotas.py applies them. A decimal is counted in
-- millionths. A text is read as a sign, ASCII digits and up to six decimals; blanks, underscores and
-- exponents are left out.
use Prim.Native.Char.{code}
use rya.Prelude.{
  ℕ, zero, suc, ◌+◌, ◌-◌, ◌*◌, ◌/◌, ◌^◌, String, Bool, true, false, ◌&&◌, Option, none, some, List,
  [], ◌∷◌, leb, ◌==◌, ◌≡◌, refl, if◌then◌else◌,
}
use rya.Prelude.Int.{ℤ, pos, negsuc}
use rya.Json.{Json, null, bool, whole, millionths, text, arr, obj}

abbrev pub million : ℕ
million = 1000000

codes : String → List ℕ
codes String.[] = []
codes (String.◌∷◌ c s) = code c ∷ codes s

abbrev is_digit : ℕ → Bool
is_digit c = leb 48 c && leb c 57

-- digits to the end; `seen` says that there was one before
read_digits : ℕ → Bool → List ℕ → Option ℕ
read_digits n seen [] = if seen then some n else none
read_digits n seen (c ∷ cs) =
    let rest = read_digits (n * 10 + (c - 48)) true cs in if is_digit c then rest else none

-- decimals, of which `room` still count
read_decimals : ℕ → ℕ → Bool → List ℕ → Option ℕ
read_decimals room n seen [] = if seen then some (n * 10 ^ room) else none
read_decimals zero n seen (c ∷ cs) = none
read_decimals (suc room) n seen (c ∷ cs) =
    let rest = read_decimals room (n * 10 + (c - 48)) true cs in if is_digit c then rest else none

read_number : ℕ → Bool → List ℕ → Option ℕ
unfolding read_decimals
read_number n seen [] = if seen then some (n * million) else none
read_number n seen (c ∷ cs) =
    let rest = read_number (n * 10 + (c - 48)) true cs in
    if is_digit c then rest else if c == b'.' then read_decimals 6 n seen cs else none

abbrev negated : Option ℕ → Option ℤ
negated none = none
negated (some zero) = some (pos 0)
negated (some (suc n)) = some (negsuc n)

abbrev positive : Option ℕ → Option ℤ
positive none = none
positive (some n) = some (pos n)

signed : (List ℕ → Option ℕ) → List ℕ → Option ℤ
signed read [] = none
signed read (c ∷ cs) =
    if c == b'-'
    then negated (read cs)
    else if c == b'+'
    then positive (read cs)
    else positive (read (c ∷ cs))

abbrev of_bool : Bool → ℕ
of_bool true = 1
of_bool false = 0

-- `int(v)`; `none` is a `TypeError` or a `ValueError`
unfoldable pub int_of : Json → Option ℤ
unfolding codes read_digits signed
int_of null = none
int_of (bool b) = some (pos (of_bool b))
int_of (whole z) = some z
int_of (millionths (pos n)) = some (pos (n / million))
int_of (millionths (negsuc n)) = negated (some (suc n / million))
int_of (text s) = signed (read_digits 0 false) (codes s)
int_of (arr xs) = none
int_of (obj fs) = none

-- `float(v)`, in millionths
unfoldable pub float_of : Json → Option ℤ
unfolding codes read_number signed
float_of null = none
float_of (bool b) = some (pos (of_bool b * million))
float_of (whole (pos n)) = some (pos (n * million))
float_of (whole (negsuc n)) = negated (some (suc n * million))
float_of (millionths z) = some z
float_of (text s) = signed (read_number 0 false) (codes s)
float_of (arr xs) = none
float_of (obj fs) = none

read_limit : float_of (text "2.50") ≡ some (pos 2500000)
unfolding float_of
read_limit = refl

read_count : int_of (text "-12") ≡ some (negsuc 11)
unfolding int_of
read_count = refl
