-- ===== src/FibonacciHeap/Content.antt =====
-- Which objects are in a heap of lltc-fibonacci-heap.cpp, and how many nodes.
use drtp.Base.{ℕ, suc, ◌+◌, ◌≡◌, Option, none, some, List, [], ◌∷◌, arith, ◌==◌, if◌then◌else◌}
use drtp.FibonacciHeap.{
  Forest, nil, add, FibonacciHeapNode, degree, join, put, add_child, make_child, link, release,
  combine,
}

-- How many nodes have the object.
unfoldable pub count : ℕ → Forest → ℕ
count z nil = 0
count z (add x mk ch rest) = (if x == z then 1 else 0) + count z ch + count z rest

unfoldable pub nodes : Forest → ℕ
nodes nil = 0
nodes (add x mk ch rest) = suc (nodes ch + nodes rest)

-- A node by itself.
abbrev pub alone : FibonacciHeapNode → Forest
alone n = add n.node_object n.mark n.children nil

pub count-join : (z : ℕ) (f g : Forest) → count z (join f g) ≡ count z f + count z g
unfolding count join
count-join z nil g = omega arith
count-join z (add x mk ch rest) g = omega (arith, count-join z rest g)

pub nodes-join : (f g : Forest) → nodes (join f g) ≡ nodes f + nodes g
unfolding nodes join
nodes-join nil g = omega arith
nodes-join (add x mk ch rest) g = omega (arith, nodes-join rest g)

pub degree-join : (f g : Forest) → degree (join f g) ≡ degree f + degree g
unfolding degree join
degree-join nil g = omega arith
degree-join (add x mk ch rest) g = omega (arith, degree-join rest g)

pub count-put :
    (key : ℕ → ℕ) (n : FibonacciHeapNode) (f : Forest) (z : ℕ)
    → count z (put key n f) ≡ count z (alone n) + count z f
unfolding count put
count-put key n nil z = omega arith
count-put key n (add m mk ch rest) z = ground (arith, count-join z rest (add m mk ch nil))

pub nodes-put :
    (key : ℕ → ℕ) (n : FibonacciHeapNode) (f : Forest)
    → nodes (put key n f) ≡ nodes (alone n) + nodes f
unfolding nodes put
nodes-put key n nil = omega arith
nodes-put key n (add m mk ch rest) = ground (arith, nodes-join rest (add m mk ch nil))

count-add_child :
    (y : ℕ) (grand f : Forest) (z : ℕ)
    → count z (add_child y grand f) ≡ (if y == z then 1 else 0) + count z grand + count z f
unfolding count add_child
count-add_child y grand nil z = omega arith
count-add_child y grand (add c mk ch rest) z = omega arith

nodes-add_child :
    (y : ℕ) (grand f : Forest) → nodes (add_child y grand f) ≡ suc (nodes grand) + nodes f
unfolding nodes add_child
nodes-add_child y grand nil = omega arith
nodes-add_child y grand (add c mk ch rest) = omega arith

pub count-link :
    (key : ℕ → ℕ) (x y : FibonacciHeapNode) (z : ℕ)
    → count z (alone (link key x y)) ≡ count z (alone x) + count z (alone y)
unfolding count link make_child
count-link key x y z = ground (
  arith,
  count-add_child x.node_object x.children y.children z,
  count-add_child y.node_object y.children x.children z,
)

pub nodes-link :
    (key : ℕ → ℕ) (x y : FibonacciHeapNode)
    → nodes (alone (link key x y)) ≡ nodes (alone x) + nodes (alone y)
unfolding nodes link make_child
nodes-link key x y = ground (
  arith,
  nodes-add_child x.node_object x.children y.children,
  nodes-add_child y.node_object y.children x.children,
)

pub count-release : (f g : Forest) (z : ℕ) → count z (release f g) ≡ count z f + count z g
unfolding count release
count-release nil g z = omega arith
count-release (add x mk ch more) g z = omega (arith, count-release more (add x mk ch g) z)

pub nodes-release : (f g : Forest) → nodes (release f g) ≡ nodes f + nodes g
unfolding nodes release
nodes-release nil g = omega arith
nodes-release (add x mk ch more) g = omega (arith, nodes-release more (add x mk ch g))

-- The nodes of the degree table, in order.
unfoldable pub entries : List (Option FibonacciHeapNode) → Forest
entries [] = nil
entries (none ∷ t) = entries t
entries (some y ∷ t) = add y.node_object y.mark y.children (entries t)

pub count-combine :
    (key : ℕ → ℕ) (t : List (Option FibonacciHeapNode)) (f : Forest) (z : ℕ)
    → count z (combine key t f) ≡ count z (entries t) + count z f
unfolding count combine entries
count-combine key [] f z = omega arith
count-combine key (none ∷ t) f z = count-combine key t f z
count-combine key (some y ∷ t) f z =
    omega (arith, count-combine key t (put key y f) z, count-put key y f z)

pub nodes-combine :
    (key : ℕ → ℕ) (t : List (Option FibonacciHeapNode)) (f : Forest)
    → nodes (combine key t f) ≡ nodes (entries t) + nodes f
unfolding nodes combine entries
nodes-combine key [] f = omega arith
nodes-combine key (none ∷ t) f = nodes-combine key t f
nodes-combine key (some y ∷ t) f =
    omega (arith, nodes-combine key t (put key y f), nodes-put key y f)
