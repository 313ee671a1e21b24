-- ===== src/FibonacciHeap/Rank.antt =====
-- Why the degrees of lltc-fibonacci-heap.cpp are small: a node may lose one child before it is cut, so
-- that its degree is bounded by the nodes under it.
use drtp.Base.{
  ℕ, suc, ◌≤◌, ◌≡◌, refl, sym, Bool, true, false, Option, none, some, List, [], ◌∷◌, arith, ltb,
  inl, inr, Bool-cases,
}
use drtp.Base.Seqs.{length}
use drtp.FibonacciHeap.{
  Forest, nil, add, FibonacciHeapNode, degree, join, put, add_child, make_child, link, release,
  combine,
}
use drtp.FibonacciHeap.Content.{nodes, alone, entries}
use drtp.FibonacciHeap.Fibonacci.{fib, low, weight, weight-le, fib-monotone}

-- A node's degree, and one more where it has lost a child.
abbrev pub rank : Bool → Forest → ℕ
rank true ch = suc (degree ch)
rank false ch = degree ch

unfoldable pub ranks : Forest → List ℕ
ranks nil = []
ranks (add x mk ch rest) = rank mk ch ∷ ranks rest

-- Of a node's children at most j have a rank less than j.
abbrev pub IsSpread : Forest → Type 0
IsSpread ch = (j : ℕ) → low j (ranks ch) ≤ j

abbrev pub IsRanked : Forest → Type 0
IsRanked nil = Unit {0}
IsRanked (add x mk ch rest) = IsSpread ch × IsRanked ch × IsRanked rest

length-ranks : (f : Forest) → length (ranks f) ≡ degree f
unfolding ranks degree
length-ranks nil = refl
length-ranks (add x mk ch rest) = omega (arith, length-ranks rest)

low-length : (j : ℕ) (rs : List ℕ) → low j rs ≤ length rs
unfolding low
low-length j [] = omega arith
low-length j (r ∷ rs) = ground (arith, low-length j rs)

rank-le : (mk : Bool) (ch : Forest) → rank mk ch ≤ suc (degree ch)
rank-le true ch = omega arith
rank-le false ch = omega arith

weight-ranks : (f : Forest) → IsRanked f → weight (ranks f) ≤ nodes f
unfolding weight ranks nodes
weight-ranks nil r = omega arith
weight-ranks (add x mk ch rest) (s, r, rs) =
    let here = weight-le (degree ch) (ranks ch) (length-ranks ch) s in
    let most =
      fib-monotone (suc (rank mk ch)) (suc (suc (degree ch))) (omega (arith, rank-le mk ch)) in
    omega (arith, here, most, weight-ranks ch r, weight-ranks rest rs)

-- A node has at least as many nodes in its tree as the Fibonacci number behind its degree.
pub fib-degree-le :
    (ch : Forest) → IsSpread ch → IsRanked ch → fib (suc (suc (degree ch))) ≤ suc (nodes ch)
fib-degree-le ch s r =
    omega (arith, weight-le (degree ch) (ranks ch) (length-ranks ch) s, weight-ranks ch r)

pub join-IsRanked : (f g : Forest) → IsRanked f → IsRanked g → IsRanked (join f g)
unfolding join
join-IsRanked nil g u v = v
join-IsRanked (add x mk ch rest) g (s, u, us) v = (s, u, join-IsRanked rest g us v)

pub put-IsRanked :
    (key : ℕ → ℕ) (n : FibonacciHeapNode) (f : Forest)
    → IsRanked (alone n)
    → IsRanked f
    → IsRanked (put key n f)
unfolding put
put-IsRanked key n nil u v = u
put-IsRanked key n (add m mk ch rest) (s, u, _) (t, v, vs) =
    elim (Bool-cases (ltb (key m) (key n.node_object))) [
      | inl e ↦ rw e (s, u, join-IsRanked rest (add m mk ch nil) vs (t, v, tt))
      | inr e ↦ rw e (t, v, (s, u, vs))
    ]

pub release-IsRanked : (f g : Forest) → IsRanked f → IsRanked g → IsRanked (release f g)
unfolding release
release-IsRanked nil g u v = v
release-IsRanked (add x mk ch more) g (s, u, us) v =
    release-IsRanked more (add x mk ch g) us (s, u, v)

pub combine-IsRanked :
    (key : ℕ → ℕ) (t : List (Option FibonacciHeapNode)) (f : Forest)
    → IsRanked (entries t)
    → IsRanked f
    → IsRanked (combine key t f)
unfolding combine entries
combine-IsRanked key [] f u v = v
combine-IsRanked key (none ∷ t) f u v = combine-IsRanked key t f u v
combine-IsRanked key (some y ∷ t) f (s, u, us) v =
    combine-IsRanked key t (put key y f) us (put-IsRanked key y f (s, u, tt) v)

add_child-IsSpread :
    (y : ℕ) (grand ch : Forest)
    → degree grand ≡ degree ch
    → IsSpread ch
    → IsSpread (add_child y grand ch)
unfolding add_child ranks degree low
add_child-IsSpread y grand nil e s j = ground arith
add_child-IsSpread y grand (add c mk ch rest) e s j = ground (
  arith,
  e,
  s j,
  low-length j (ranks (add c mk ch rest)),
  length-ranks (add c mk ch rest),
  low-length j (ranks rest),
  length-ranks rest,
)

add_child-IsRanked :
    (y : ℕ) (grand ch : Forest)
    → IsSpread grand
    → IsRanked grand
    → IsRanked ch
    → IsRanked (add_child y grand ch)
unfolding add_child
add_child-IsRanked y grand nil s r v = (s, r, tt)
add_child-IsRanked y grand (add c mk ch rest) s r (t, v, vs) = (t, v, (s, r, vs))

degree-add_child : (y : ℕ) (grand ch : Forest) → degree (add_child y grand ch) ≡ suc (degree ch)
unfolding add_child degree
degree-add_child y grand nil = refl
degree-add_child y grand (add c mk ch rest) = refl

-- Two nodes of one degree make a node of the next.
pub link-IsRanked :
    (key : ℕ → ℕ) (x y : FibonacciHeapNode)
    → degree x.children ≡ degree y.children
    → IsRanked (alone x)
    → IsRanked (alone y)
    → IsRanked (alone (link key x y)) × (degree (link key x y).children ≡ suc (degree x.children))
unfolding link make_child
link-IsRanked key x y e (p, q, _) (u, v, _) =
    elim (Bool-cases (ltb (key x.node_object) (key y.node_object))) [
      | inl f ↦ rw f (
        (
          add_child-IsSpread x.node_object x.children y.children e u,
          add_child-IsRanked x.node_object x.children y.children p q v,
          tt,
        ),
        omega (arith, degree-add_child x.node_object x.children y.children, e),
      )
      | inr f ↦ rw f (
        (
          add_child-IsSpread y.node_object y.children x.children (sym e) p,
          add_child-IsRanked y.node_object y.children x.children u v q,
          tt,
        ),
        degree-add_child y.node_object y.children x.children,
      )
    ]
