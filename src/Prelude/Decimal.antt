-- ===== src/Prelude/Decimal.antt =====
-- Package strconv on unsigned numbers, in base ten.
use Prim.Native.Nat.{ℕ, zero, suc, ◌+◌, ◌-◌, ◌*◌, ◌/◌, ◌%◌, ◌≤◌, ◌<◌}
use mathlib.Core.Path.{◌≡◌, refl, ◌∙◌}
use mathlib.Core.Bool.{Bool, true, false, ◌&&◌}
use mathlib.Core.List.{[], ◌∷◌}
use mathlib.Core.Option.{Option, none, some}
use native.Mathlib.Omega.{arith}
use sandbox_operator.Prelude.Tests.{if◌then◌else◌, ltb, leb}
use sandbox_operator.Prelude.Lists.{all}
use sandbox_operator.Prelude.Strings.{Text}

abbrev pub is_digit : ℕ → Bool
is_digit c = leb b'0' c && leb c b'9'

-- The digits of `n` before those in `out`; the number of digits is at most `fuel`.
unfoldable pub digits : ℕ → ℕ → Text → Text
digits zero n out = out
digits (suc fuel) n out =
    let last = b'0' + n % 10 in
    let more = digits fuel (n / 10) (last ∷ out) in if ltb n 10 then last ∷ out else more

-- `strconv.Itoa(n)`
unfoldable pub itoa : ℕ → Text
unfolding digits
itoa n = digits (suc n) n []

-- The number that digits spell after `n`, when it is at most `top`.
unfoldable pub read_digits : ℕ → Text → ℕ → Option ℕ
read_digits top [] n = if leb n top then some n else none
read_digits top (c ∷ s) n =
    let rest = read_digits top s (n * 10 + (c - b'0')) in if is_digit c then rest else none

-- `strconv.ParseUint(s, 10, bits)`, with `top` the greatest number of that many bits
unfoldable pub parse_uint : ℕ → Text → Option ℕ
unfolding read_digits
parse_uint top [] = none
parse_uint top (c ∷ s) = read_digits top (c ∷ s) 0

read_digits-digits :
    (top fuel n : ℕ) (out : Text)
    → n < fuel
    → read_digits top (digits fuel n out) 0 ≡ read_digits top out n
unfolding digits read_digits
read_digits-digits top zero n out h = ground arith
read_digits-digits top (suc fuel) n out h =
    ground (arith, read_digits-digits top fuel (n / 10) ((b'0' + n % 10) ∷ out))

IsCons : Text → Type 0
IsCons t = (c : ℕ) × (s : Text) × (t ≡ c ∷ s)

if-IsCons : (b : Bool) (s t : Text) → IsCons s → IsCons t → IsCons (if b then s else t)
if-IsCons true s t hs ht = hs
if-IsCons false s t hs ht = ht

digits-IsCons : (fuel n d : ℕ) (out : Text) → IsCons (digits fuel n (d ∷ out))
unfolding digits IsCons
digits-IsCons zero n d out = (d, out, refl)
digits-IsCons (suc fuel) n d out =
    if-IsCons (ltb n 10) _ _ (b'0' + n % 10, d ∷ out, refl)
      (digits-IsCons fuel (n / 10) (b'0' + n % 10) (d ∷ out))

itoa-IsCons : (n : ℕ) → IsCons (itoa n)
unfolding itoa digits IsCons
itoa-IsCons n =
    if-IsCons (ltb n 10) _ _ (b'0' + n % 10, [], refl) (digits-IsCons n (n / 10) (b'0' + n % 10) [])

parse_uint-read_digits :
    (top c : ℕ) (s t : Text) → t ≡ c ∷ s → parse_uint top t ≡ read_digits top t 0
unfolding parse_uint
parse_uint-read_digits top c s t e = rw e refl

-- Every number up to the top is read back.
pub parse_uint-itoa : (top n : ℕ) → n ≤ top → parse_uint top (itoa n) ≡ some n
unfolding read_digits itoa IsCons
parse_uint-itoa top n h =
    let (c, s, e) = itoa-IsCons n in
    parse_uint-read_digits top c s (itoa n) e
    ∙ (read_digits-digits top (suc n) n [] (omega arith) ∙ ground arith)

digits-all :
    (p : ℕ → Bool) (fuel n : ℕ) (out : Text)
    → ((c : ℕ) → is_digit c ≡ true → p c ≡ true)
    → all p out ≡ true
    → all p (digits fuel n out) ≡ true
unfolding digits
digits-all p zero n out hp ho = ho
digits-all p (suc fuel) n out hp ho =
    let last = hp (b'0' + n % 10) (ground arith) in
    if-all p (ltb n 10) _ _ (rw (last, ho) refl)
      (digits-all p fuel (n / 10) ((b'0' + n % 10) ∷ out) hp (rw (last, ho) refl))
  where
    if-all :
        (q : ℕ → Bool) (b : Bool) (s t : Text)
        → all q s ≡ true
        → all q t ≡ true
        → all q (if b then s else t) ≡ true
    if-all q true s t hs ht = hs
    if-all q false s t hs ht = ht

-- What holds of every digit holds of all that a number is printed with.
pub itoa-all :
    (p : ℕ → Bool) (n : ℕ) → ((c : ℕ) → is_digit c ≡ true → p c ≡ true) → all p (itoa n) ≡ true
unfolding itoa
itoa-all p n hp = digits-all p (suc n) n [] hp refl
