-- ===== src/Names/Texts.antt =====
-- The texts of name components: what lltc-messages-helper.cpp uses of `stringstream`, `stoll`, `stoull`,
-- `find` and `substr`. A text is the list of its character codes.
use Prim.Native.Char.{code}
use drtp.Base.{
  ℕ, zero, suc, ◌+◌, ◌-◌, ◌*◌, ◌/◌, ◌%◌, ◌^◌, ◌<◌, ◌≡◌, refl, ap, ◌∙◌, Bool, true, false, ◌&&◌,
  Option, none, some, List, [], ◌∷◌, ◌++◌, String, arith, ◌==◌, ltb, inl, inr, Bool-cases,
  if◌then◌else◌,
}

abbrev pub Text : Type 0
Text = List ℕ

-- The codes of a literal.
abbrev pub codes : String → Text
codes String.[] = []
codes (String.◌∷◌ c s) = code c ∷ codes s

unfoldable pub is_digit : ℕ → Bool
is_digit c = ltb 47 c && ltb c 58

-- The last digits of a number, before a text.
unfoldable pub digits : ℕ → ℕ → Text → Text
digits zero n out = out
digits (suc f) n out = if ltb n 10 then (48 + n) ∷ out else digits f (n / 10) ((48 + n % 10) ∷ out)

-- A number of at most 64 bits, which has at most 20 digits, before a text.
abbrev pub show : ℕ → Text → Text
show n out = digits 20 n out

-- The value of the digits in front, behind those of a number.
unfoldable pub scan : Text → ℕ → ℕ
unfolding is_digit
scan [] n = n
scan (c ∷ s) n = if is_digit c then scan s (n * 10 + (c - 48)) else n

abbrev pub starts_with_digit : Text → Bool
starts_with_digit [] = false
starts_with_digit (c ∷ s) = is_digit c

-- `stoll` and `stoull` of a text without a sign or white space in front: they throw without a digit,
-- and beyond the range of their type.
unfoldable pub stoll : Text → Option ℕ
unfolding scan is_digit
stoll s = if starts_with_digit s && ltb (scan s 0) (2 ^ 63) then some (scan s 0) else none

unfoldable pub stoull : Text → Option ℕ
unfolding scan is_digit
stoull s = if starts_with_digit s && ltb (scan s 0) (2 ^ 64) then some (scan s 0) else none

-- `s.substr(0, s.find(c))`.
unfoldable pub before : ℕ → Text → Text
before c [] = []
before c (d ∷ s) = if d == c then [] else d ∷ before c s

-- `s.substr(s.find(c) + 1)`, where the character is found.
unfoldable pub behind : ℕ → Text → Option Text
behind c [] = none
behind c (d ∷ s) = if d == c then some s else behind c s

-- `s.substr(k)` if the first `k` characters are those of a text.
unfoldable pub after_text : Text → Text → Option Text
after_text [] s = some s
after_text (c ∷ t) [] = none
after_text (c ∷ t) (d ∷ s) = if d == c then after_text t s else none

limit : ℕ → ℕ
limit zero = 1
limit (suc f) = 10 * limit f

scan-digits :
    (f n : ℕ) (out : Text) → n < limit (suc f) → scan (digits (suc f) n out) 0 ≡ scan out n
unfolding scan is_digit digits limit
scan-digits zero n out h = ground (arith, h)
scan-digits (suc f) n out h = elim (Bool-cases (ltb n 10)) [
  | inl e ↦ rw e (ground arith)
  | inr e ↦
      let ih = scan-digits f (n / 10) ((48 + n % 10) ∷ out) (omega (arith, h)) in
      let last : n / 10 * 10 + (48 + n % 10 - 48) ≡ n = omega arith in
      rw e (ih ∙ ground (arith, ap {B = ℕ} (λ (z : ℕ). scan out z) last))
]

digits-starts : (f n : ℕ) (out : Text) → starts_with_digit (digits (suc f) n out) ≡ true
unfolding is_digit digits
digits-starts zero n out = elim (Bool-cases (ltb n 10)) [
  | inl e ↦ rw e (ground arith)
  | inr e ↦ rw e (ground arith)
]
digits-starts (suc f) n out = elim (Bool-cases (ltb n 10)) [
  | inl e ↦ rw e (ground arith)
  | inr e ↦ rw e (digits-starts f (n / 10) ((48 + n % 10) ∷ out))
]

-- A text that does not go on with a digit.
abbrev pub Ends : Text → Type 0
Ends s = starts_with_digit s ≡ false

scan-Ends : (s : Text) (n : ℕ) → Ends s → scan s n ≡ n
unfolding scan
scan-Ends [] n e = refl
scan-Ends (c ∷ s) n e = rw e refl

scan-show : (n : ℕ) (s : Text) → n < 2 ^ 64 → Ends s → scan (show n s) 0 ≡ n
scan-show n s h e = scan-digits 19 n s (unfold limit in omega (arith, h)) ∙ scan-Ends s n e

-- A number is read back from its digits.
pub stoll-show : (n : ℕ) (s : Text) → n < 2 ^ 63 → Ends s → stoll (show n s) ≡ some n
unfolding stoll
stoll-show n s h e =
    let starts = digits-starts 19 n s in
    let value = scan-show n s (omega (arith, h)) e in
    let fits : ltb n (2 ^ 63) ≡ true = ground (arith, h) in rw (starts, value, fits) refl

pub stoull-show : (n : ℕ) (s : Text) → n < 2 ^ 64 → Ends s → stoull (show n s) ≡ some n
unfolding stoull
stoull-show n s h e =
    let starts = digits-starts 19 n s in
    let value = scan-show n s h e in
    let fits : ltb n (2 ^ 64) ≡ true = ground (arith, h) in rw (starts, value, fits) refl

-- A character that is no digit is found behind the digits.
pub before-digits :
    (c f n : ℕ) (out : Text)
    → is_digit c ≡ false
    → before c (digits f n out) ≡ digits f n (before c out)
unfolding before digits is_digit
before-digits c zero n out e = refl
before-digits c (suc f) n out e = elim (Bool-cases (ltb n 10)) [
  | inl g ↦ rw g (ground (arith, e))
  | inr g ↦
      let other : (48 + n % 10 == c) ≡ false = ground (arith, e) in
      rw g (rw other at (before-digits c f (n / 10) ((48 + n % 10) ∷ out) e))
]

pub behind-digits :
    (c f n : ℕ) (out : Text) → is_digit c ≡ false → behind c (digits f n out) ≡ behind c out
unfolding behind digits is_digit
behind-digits c zero n out e = refl
behind-digits c (suc f) n out e = elim (Bool-cases (ltb n 10)) [
  | inl g ↦ rw g (ground (arith, e))
  | inr g ↦
      let other : (48 + n % 10 == c) ≡ false = ground (arith, e) in
      rw g (rw other at (behind-digits c f (n / 10) ((48 + n % 10) ∷ out) e))
]

pub after_text-append : (t s : Text) → after_text t (t ++ s) ≡ some s
unfolding after_text
after_text-append [] s = refl
after_text-append (c ∷ t) s = ground (arith, after_text-append t s)
