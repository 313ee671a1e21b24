-- ===== src/FibonacciHeap/Merge.antt =====
-- `degreewiseMerge` of lltc-fibonacci-heap.cpp stays inside the degree table and makes a heap of the
-- nodes that it is given.
use drtp.Base.{
  ℕ, zero, suc, ◌+◌, ◌≤◌, ◌<◌, ◌≡◌, refl, sym, ◌∙◌, Bool, Option, none, some, List, [], ◌∷◌, arith,
  ◌>>=◌,
}
use drtp.Base.Seqs.{length}
use drtp.FibonacciHeap.{
  Forest, nil, add, FibonacciHeapNode, degree, link, carry, place, merge_roots, combine,
  empty_table, degreewise_merge, sizeof_degree_table,
}
use drtp.FibonacciHeap.Content.{
  count, nodes, alone, entries, count-link, nodes-link, count-combine, nodes-combine,
}
use drtp.FibonacciHeap.Order.{IsOrdered, IsHeap, link-IsOrdered, combine-IsHeap}
use drtp.FibonacciHeap.Fibonacci.{fib_of_degree, fib-monotone}
use drtp.FibonacciHeap.Rank.{IsRanked, link-IsRanked, combine-IsRanked, fib-degree-le}

-- The nodes that an `int` counts.
abbrev pub int_limit : ℕ
int_limit = 2147483648

-- Each entry stands at its degree.
abbrev IsIndexed : ℕ → List (Option FibonacciHeapNode) → Type 0
IsIndexed d [] = Unit {0}
IsIndexed d (none ∷ t) = IsIndexed (suc d) t
IsIndexed d (some y ∷ t) = (degree y.children ≡ d) × IsIndexed (suc d) t

record IsTable (key : ℕ → ℕ) (d : ℕ) (t : List (Option FibonacciHeapNode)) : Type 0 where
  ordered : IsOrdered key (entries t)
  ranked : IsRanked (entries t)
  indexed : IsIndexed d t
  full : d + length t ≡ sizeof_degree_table

-- A table with these nodes and those of another.
record Merged (key : ℕ → ℕ) (d : ℕ) (f : Forest) (t t' : List (Option FibonacciHeapNode))
    : Type 0 where
  table : IsTable key d t'
  counts : (z : ℕ) → count z (entries t') ≡ count z f + count z (entries t)
  sizes : nodes (entries t') ≡ nodes f + nodes (entries t)

count-first :
    (z y : ℕ) (mk : Bool) (ch f : Forest)
    → count z (add y mk ch f) ≡ count z (add y mk ch nil) + count z f
unfolding count
count-first z y mk ch f = omega arith

nodes-first :
    (y : ℕ) (mk : Bool) (ch f : Forest) → nodes (add y mk ch f) ≡ nodes (add y mk ch nil) + nodes f
unfolding nodes
nodes-first y mk ch f = omega arith

too_high :
    (x : FibonacciHeapNode)
    → IsRanked (alone x)
    → nodes (alone x) < int_limit
    → 45 ≤ degree x.children
    → ⊥
unfolding nodes
too_high x (s, r, _) few e = absurd (
    omega (
      arith,
      fib_of_degree,
      fib-degree-le x.children s r,
      few,
      fib-monotone 47 (suc (suc (degree x.children))) (omega (arith, e)),
    ))

carry_fits :
    (key : ℕ → ℕ) (x : FibonacciHeapNode) (t : List (Option FibonacciHeapNode)) (d : ℕ)
    → degree x.children ≡ d
    → IsOrdered key (alone x)
    → IsRanked (alone x)
    → IsTable key d t
    → nodes (alone x) + nodes (entries t) < int_limit
    → (t' : List (Option FibonacciHeapNode)) × (carry key x t ≡ some t')
      × Merged key d (alone x) t t'
unfolding carry entries
carry_fits key x [] d e o r w few =
    absurd (too_high x r (omega (arith, few)) (omega (arith, e, w.full)))
carry_fits key x (none ∷ t) d e o r w few = (
  some x ∷ t,
  refl,
  record {
    table = record {
      ordered = (o.0, o.1, w.ordered);
      ranked = (r.0, r.1, w.ranked);
      indexed = (e, w.indexed);
      full = w.full;
    };
    counts = λ z. unfold count in omega arith;
    sizes = unfold nodes in omega arith;
  },
)
carry_fits key x (some y ∷ t) d e o r w few =
    let (ob, od, os) = w.ordered in
    let (rb, rd, rs) = w.ranked in
    let (here, later) = w.indexed in
    let (linked, up) = link-IsRanked key x y (e ∙ sym here) r (rb, rd, tt) in
    let (t', returned, m) =
      carry_fits key (link key x y) t (suc d) (omega (arith, up, e))
        (link-IsOrdered key x y o (ob, od, tt)) linked
        (record { ordered = os; ranked = rs; indexed = later; full = omega (arith, w.full) })
        (omega (
          arith,
          few,
          nodes-link key x y,
          nodes-first y.node_object y.mark y.children (entries t),
        )) in
    (
      none ∷ t',
      rw returned refl,
      record {
        table = record {
          ordered = m.table.ordered;
          ranked = m.table.ranked;
          indexed = m.table.indexed;
          full = omega (arith, m.table.full);
        };
        counts = λ z. omega (
          arith,
          m.counts z,
          count-link key x y z,
          count-first z y.node_object y.mark y.children (entries t),
        );
        sizes = omega (
          arith,
          m.sizes,
          nodes-link key x y,
          nodes-first y.node_object y.mark y.children (entries t),
        );
      },
    )

place_fits :
    (key : ℕ → ℕ) (k : ℕ) (x : FibonacciHeapNode) (t : List (Option FibonacciHeapNode)) (d : ℕ)
    → degree x.children ≡ d + k
    → IsOrdered key (alone x)
    → IsRanked (alone x)
    → IsTable key d t
    → nodes (alone x) + nodes (entries t) < int_limit
    → (t' : List (Option FibonacciHeapNode)) × (place key k x t ≡ some t')
      × Merged key d (alone x) t t'
unfolding place entries
place_fits key zero x t d e o r w few = carry_fits key x t d (omega (arith, e)) o r w few
place_fits key (suc k) x [] d e o r w few =
    absurd (too_high x r (omega (arith, few)) (omega (arith, e, w.full)))
place_fits key (suc k) x (none ∷ t) d e o r w few =
    let (t', returned, m) =
      place_fits key k x t (suc d) (omega (arith, e)) o r
        (record {
          ordered = w.ordered;
          ranked = w.ranked;
          indexed = w.indexed;
          full = omega (arith, w.full);
        })
        few in
    (
      none ∷ t',
      rw returned refl,
      record {
        table = record {
          ordered = m.table.ordered;
          ranked = m.table.ranked;
          indexed = m.table.indexed;
          full = omega (arith, m.table.full);
        };
        counts = m.counts;
        sizes = m.sizes;
      },
    )
place_fits key (suc k) x (some y ∷ t) d e o r w few =
    let (ob, od, os) = w.ordered in
    let (rb, rd, rs) = w.ranked in
    let (here, later) = w.indexed in
    let (t', returned, m) =
      place_fits key k x t (suc d) (omega (arith, e)) o r
        (record { ordered = os; ranked = rs; indexed = later; full = omega (arith, w.full) })
        (omega (arith, few, nodes-first y.node_object y.mark y.children (entries t))) in
    (
      some y ∷ t',
      rw returned refl,
      record {
        table = record {
          ordered = (ob, od, m.table.ordered);
          ranked = (rb, rd, m.table.ranked);
          indexed = (here, m.table.indexed);
          full = omega (arith, m.table.full);
        };
        counts = λ z. omega (
          arith,
          m.counts z,
          count-first z y.node_object y.mark y.children (entries t),
          count-first z y.node_object y.mark y.children (entries t'),
        );
        sizes = omega (
          arith,
          m.sizes,
          nodes-first y.node_object y.mark y.children (entries t),
          nodes-first y.node_object y.mark y.children (entries t'),
        );
      },
    )

merge_roots_fits :
    (key : ℕ → ℕ) (f : Forest) (t : List (Option FibonacciHeapNode))
    → IsOrdered key f
    → IsRanked f
    → IsTable key 0 t
    → nodes f + nodes (entries t) < int_limit
    → (t' : List (Option FibonacciHeapNode)) × (merge_roots key f t ≡ some t') × Merged key 0 f t t'
unfolding merge_roots
merge_roots_fits key nil t o r w few = (
  t,
  refl,
  record {
    table = w;
    counts = λ z. unfold count in omega arith;
    sizes = unfold nodes in omega arith;
  },
)
merge_roots_fits key (add x mk ch rest) t (ob, od, os) (rb, rd, rs) w few =
    let n : FibonacciHeapNode = record { node_object = x; mark = mk; children = ch } in
    let (t', returned, m) =
      place_fits key (degree ch) n t 0 (omega arith) (ob, od, tt) (rb, rd, tt) w
        (omega (arith, few, nodes-first x mk ch rest)) in
    let (t'', returned', m') =
      merge_roots_fits key rest t' os rs m.table
        (omega (arith, few, nodes-first x mk ch rest, m.sizes)) in
    (
      t'',
      rw (returned, ◌>>=◌, returned') refl,
      record {
        table = m'.table;
        counts = λ z. omega (arith, m.counts z, m'.counts z, count-first z x mk ch rest);
        sizes = omega (arith, m.sizes, m'.sizes, nodes-first x mk ch rest);
      },
    )

entries-empty_table : (n : ℕ) → entries (empty_table n) ≡ nil
unfolding entries empty_table
entries-empty_table zero = refl
entries-empty_table (suc n) = entries-empty_table n

-- `degreewiseMerge` of nodes in order, fewer than an `int` counts, returns a heap of them.
pub degreewise_merge_fits :
    (key : ℕ → ℕ) (f : Forest)
    → IsOrdered key f
    → IsRanked f
    → nodes f < int_limit
    → (ring : Forest) × (degreewise_merge key f ≡ some ring)
      × IsHeap key ring
      × IsRanked ring
      × ((z : ℕ) → count z ring ≡ count z f)
      × (nodes ring ≡ nodes f)
unfolding degreewise_merge empty_table entries
degreewise_merge_fits key f o r few =
    let start : IsTable key 0 (empty_table sizeof_degree_table) = record {
      ordered = tt;
      ranked = tt;
      indexed = tt;
      full = refl;
    } in
    let (t, returned, m) =
      merge_roots_fits key f (empty_table sizeof_degree_table) o r start
        (unfold nodes in omega (arith, few)) in
    (
      combine key t nil,
      rw (returned, ◌>>=◌) refl,
      combine-IsHeap key t nil m.table.ordered tt,
      combine-IsRanked key t nil m.table.ranked tt,
      λ z. unfold count in omega (arith, count-combine key t nil z, m.counts z),
      unfold nodes in omega (arith, nodes-combine key t nil, m.sizes),
    )
