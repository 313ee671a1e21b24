-- ===== src/FibonacciHeap/Order.antt =====
-- The heap order of lltc-fibonacci-heap.cpp: no key is greater than that of the parent.
use drtp.Base.{
  ℕ, ◌≤◌, ◌<◌, ◌≡◌, ap, Bool, Option, none, some, List, [], ◌∷◌, arith, ◌==◌, ltb, inl, inr,
  Bool-cases,
}
use drtp.FibonacciHeap.{
  Forest, nil, add, FibonacciHeapNode, join, put, add_child, make_child, link, release, combine,
}
use drtp.FibonacciHeap.Content.{count, alone, entries}

-- The nodes of a list have keys of at most this.
abbrev pub Below : (ℕ → ℕ) → ℕ → Forest → Type 0
Below key b nil = Unit {0}
Below key b (add x mk ch rest) = (key x ≤ b) × Below key b rest

abbrev pub IsOrdered : (ℕ → ℕ) → Forest → Type 0
IsOrdered key nil = Unit {0}
IsOrdered key (add x mk ch rest) = Below key (key x) ch × IsOrdered key ch × IsOrdered key rest

pub weaken : (key : ℕ → ℕ) (a b : ℕ) (f : Forest) → a ≤ b → Below key a f → Below key b f
weaken key a b nil h u = tt
weaken key a b (add x mk ch rest) h (u, v) = (omega arith, weaken key a b rest h v)

pub join-Below :
    (key : ℕ → ℕ) (b : ℕ) (f g : Forest) → Below key b f → Below key b g → Below key b (join f g)
unfolding join
join-Below key b nil g u v = v
join-Below key b (add x mk ch rest) g (u, us) v = (u, join-Below key b rest g us v)

pub join-IsOrdered :
    (key : ℕ → ℕ) (f g : Forest) → IsOrdered key f → IsOrdered key g → IsOrdered key (join f g)
unfolding join
join-IsOrdered key nil g u v = v
join-IsOrdered key (add x mk ch rest) g (b, u, us) v = (b, u, join-IsOrdered key rest g us v)

-- A list of which the first has the greatest key.
abbrev pub IsHeap : (ℕ → ℕ) → Forest → Type 0
IsHeap key nil = Unit {0}
IsHeap key (add m mk ch rest) = Below key (key m) rest × IsOrdered key (add m mk ch rest)

pub put-IsHeap :
    (key : ℕ → ℕ) (n : FibonacciHeapNode) (f : Forest)
    → IsOrdered key (alone n)
    → IsHeap key f
    → IsHeap key (put key n f)
unfolding put
put-IsHeap key n nil u v = (tt, u)
put-IsHeap key n (add m mk ch rest) u (b, (below, deep, v)) =
    elim (Bool-cases (ltb (key m) (key n.node_object))) [
      | inl e ↦
          let less : key m ≤ key n.node_object = ground arith in
          rw e (
            join-Below key (key n.node_object) rest (add m mk ch nil)
                (weaken key (key m) (key n.node_object) rest less b) (less, tt),
            (u.0, u.1, join-IsOrdered key rest (add m mk ch nil) v (below, deep, tt)),
          )
      | inr e ↦
          let less : key n.node_object ≤ key m = ground arith in
          rw e ((less, b), (below, deep, (u.0, u.1, v)))
    ]

add_child-IsOrdered :
    (key : ℕ → ℕ) (b y : ℕ) (grand ch : Forest)
    → key y ≤ b
    → Below key (key y) grand
    → IsOrdered key grand
    → Below key b ch
    → IsOrdered key ch
    → Below key b (add_child y grand ch) × IsOrdered key (add_child y grand ch)
unfolding add_child
add_child-IsOrdered key b y grand nil h u v p q = ((h, tt), (u, v, tt))
add_child-IsOrdered key b y grand (add c mk ch rest) h u v (p, ps) (q, qs, rs) =
    ((p, (h, ps)), (q, qs, (u, v, rs)))

pub link-IsOrdered :
    (key : ℕ → ℕ) (x y : FibonacciHeapNode)
    → IsOrdered key (alone x)
    → IsOrdered key (alone y)
    → IsOrdered key (alone (link key x y))
unfolding link make_child
link-IsOrdered key x y (p, q, _) (u, v, _) =
    elim (Bool-cases (ltb (key x.node_object) (key y.node_object))) [
      | inl e ↦
          let (b, o) =
            add_child-IsOrdered key (key y.node_object) x.node_object x.children y.children
              (ground arith) p q u v in
          rw e (b, o, tt)
      | inr e ↦
          let (b, o) =
            add_child-IsOrdered key (key x.node_object) y.node_object y.children x.children
              (ground arith) u v p q in
          rw e (b, o, tt)
    ]

pub release-IsOrdered :
    (key : ℕ → ℕ) (f g : Forest) → IsOrdered key f → IsOrdered key g → IsOrdered key (release f g)
unfolding release
release-IsOrdered key nil g u v = v
release-IsOrdered key (add x mk ch more) g (b, u, us) v =
    release-IsOrdered key more (add x mk ch g) us (b, u, v)

pub combine-IsHeap :
    (key : ℕ → ℕ) (t : List (Option FibonacciHeapNode)) (f : Forest)
    → IsOrdered key (entries t)
    → IsHeap key f
    → IsHeap key (combine key t f)
unfolding combine entries
combine-IsHeap key [] f u v = v
combine-IsHeap key (none ∷ t) f u v = combine-IsHeap key t f u v
combine-IsHeap key (some y ∷ t) f (b, u, us) v =
    combine-IsHeap key t (put key y f) us (put-IsHeap key y f (b, u, tt) v)

-- Every object's key is at most that of the nodes above it.
pub Below-all :
    (key : ℕ → ℕ) (b z : ℕ) (f : Forest)
    → Below key b f
    → IsOrdered key f
    → 0 < count z f
    → key z ≤ b
unfolding count
Below-all key b z nil u v h = absurd (omega arith)
Below-all key b z (add x mk ch rest) (u, us) (p, q, r) h =
    let deep = Below-all key (key x) z ch p q in
    let wide = Below-all key b z rest us r in
    elim (Bool-cases (x == z)) [
      | inl e ↦
          let same : x ≡ z = ground arith in let keys : key x ≡ key z = ap key same in omega arith
      | inr e ↦ ground (arith, deep, wide, e, h)
    ]

pub greatest_first :
    (key : ℕ → ℕ) (m z : ℕ) (mk : Bool) (ch rest : Forest)
    → IsHeap key (add m mk ch rest)
    → 0 < count z (add m mk ch rest)
    → key z ≤ key m
greatest_first key m z mk ch rest (b, v) h =
    Below-all key (key m) z (add m mk ch rest) (omega arith, b) v h
