-- ===== src/FibonacciHeap/Fibonacci.antt =====
-- The arithmetic behind the size of the degree table of lltc-fibonacci-heap.cpp.
use drtp.Base.{
  ℕ, zero, suc, ◌+◌, ◌≤◌, ◌<◌, ◌≡◌, refl, List, [], ◌∷◌, arith, ◌==◌, ltb, inl, inr, Bool-cases,
  if◌then◌else◌,
}
use drtp.Base.Seqs.{length}

-- Two consecutive Fibonacci numbers.
unfoldable pub fibs : ℕ → ℕ × ℕ
fibs zero = (0, 1)
fibs (suc n) = let r = fibs n in (r.1, (r.0) + (r.1))

abbrev pub fib : ℕ → ℕ
fib n = (fibs n).0

pub fib-suc : (n : ℕ) → fib (suc (suc n)) ≡ fib n + fib (suc n)
unfolding fibs
fib-suc n = refl

fib-increases : (n : ℕ) → fib n ≤ fib (suc n)
unfolding fibs
fib-increases zero = omega arith
fib-increases (suc n) = omega arith

pub fib-monotone : (k n : ℕ) → k ≤ n → fib k ≤ fib n
fib-monotone k zero h = let e : k ≡ 0 = omega arith in rw e (omega arith)
fib-monotone k (suc n) h = elim (Bool-cases (k == suc n)) [
  | inl e ↦ let same : k ≡ suc n = ground arith in rw same (omega arith)
  | inr e ↦
      let less : k ≤ n = ground (arith, e, h) in
      omega (arith, fib-monotone k n less, fib-increases n)
]

-- How many entries are less than a number, and the sum of the Fibonacci numbers behind the entries.
unfoldable pub low : ℕ → List ℕ → ℕ
low j [] = 0
low j (r ∷ rs) = let rest = low j rs in if ltb r j then suc rest else rest

unfoldable pub weight : List ℕ → ℕ
weight [] = 0
weight (r ∷ rs) = fib (suc r) + weight rs

-- One entry that is not less than a number, and the others.
record Picked (k : ℕ) (rs : List ℕ) : Type 0 where
  entry : ℕ
  others : List ℕ
  high : k ≤ entry
  shorter : length rs ≡ suc (length others)
  split : weight rs ≡ fib (suc entry) + weight others
  fewer : (j : ℕ) → low j others ≤ low j rs

picked : (k : ℕ) (rs : List ℕ) → low k rs < length rs → Picked k rs
unfolding low weight
picked k [] h = absurd (omega arith)
picked k (r ∷ rs) h = elim (Bool-cases (ltb r k)) [
  | inr e ↦ record {
    entry = r;
    others = rs;
    high = ground arith;
    shorter = refl;
    split = refl;
    fewer = λ j. ground arith;
  }
  | inl e ↦
      let p = picked k rs (ground (arith, e, h)) in
      record {
        entry = p.entry;
        others = r ∷ p.others;
        high = p.high;
        shorter = omega (arith, p.shorter);
        split = omega (arith, p.split);
        fewer = λ j. ground (arith, p.fewer j);
      }
]

-- Where at most j entries are less than j, the weight is that of 0, 1, 2 and so on.
pub weight-le :
    (d : ℕ) (rs : List ℕ)
    → length rs ≡ d
    → ((j : ℕ) → low j rs ≤ j)
    → fib (suc (suc d)) ≤ suc (weight rs)
unfolding fibs weight
weight-le zero rs e h = omega arith
weight-le (suc d) rs e h =
    let p = picked d rs (omega (arith, e, h d)) in
    let ih =
      weight-le d p.others (omega (arith, e, p.shorter)) (λ j. omega (arith, h j, p.fewer j)) in
    omega (
      arith,
      ih,
      p.split,
      fib-suc (suc d),
      fib-monotone (suc d) (suc p.entry) (omega (arith, p.high)),
    )

-- A node of degree 45 needs more nodes than an `int` counts.
pub fib_of_degree : fib 47 ≡ 2971215073
unfolding fibs
fib_of_degree = refl
