-- ===== src/FibonacciHeap/Queue.antt =====
-- The heap of lltc-fibonacci-heap.cpp as a priority queue: what its operations do to the objects in it.
use drtp.Base.{ℕ, ◌+◌, ◌-◌, ◌≤◌, ◌<◌, ◌≡◌, refl, ap, ◌∙◌, some, arith, ◌==◌, if◌then◌else◌, ◌>>=◌}
use drtp.FibonacciHeap.{
  empty, Forest, nil, add, FibonacciHeap, insert, new_node, release, remove_max,
}
use drtp.FibonacciHeap.Content.{count, nodes, count-put, nodes-put, count-release, nodes-release}
use drtp.FibonacciHeap.Order.{IsHeap, put-IsHeap, release-IsOrdered, greatest_first}
use drtp.FibonacciHeap.Fibonacci.{low}
use drtp.FibonacciHeap.Rank.{ranks, IsRanked, put-IsRanked, release-IsRanked}
use drtp.FibonacciHeap.Merge.{int_limit, degreewise_merge_fits}

-- The objects of a heap, each with the number of its nodes.
abbrev pub holds : ℕ → FibonacciHeap → ℕ
holds z h = count z h.ring

abbrev pub one_of : ℕ → ℕ → ℕ
one_of x z = if x == z then 1 else 0

-- A heap in order, with each object at most once, fewer nodes than an `int` counts, and their number.
pub record IsValid (key : ℕ → ℕ) (h : FibonacciHeap) : Type 0 where
  pub heap : IsHeap key h.ring
  pub ranked : IsRanked h.ring
  pub once : (z : ℕ) → holds z h ≤ 1
  pub counted : h.number_of_nodes ≡ nodes h.ring
  pub few : h.number_of_nodes < int_limit

pub empty-IsValid : (key : ℕ → ℕ) → IsValid key empty
unfolding count nodes
empty-IsValid key = record {
  heap = tt;
  ranked = tt;
  once = λ z. omega arith;
  counted = refl;
  few = omega arith;
}

-- `insert` of an object that is not in the heap adds it.
pub insert_lem :
    (key : ℕ → ℕ) (x : ℕ) (h : FibonacciHeap)
    → IsValid key h
    → holds x h ≡ 0
    → h.number_of_nodes + 1 < int_limit
    → IsValid key (insert key x h) × ((z : ℕ) → holds z (insert key x h) ≡ one_of x z + holds z h)
unfolding insert count nodes ranks low
insert_lem key x h v fresh few = (
  record {
    heap = put-IsHeap key (new_node x) h.ring (tt, tt, tt) v.heap;
    ranked = put-IsRanked key (new_node x) h.ring ((λ j. omega arith), tt, tt) v.ranked;
    once = λ z. ground (arith, count-put key (new_node x) h.ring z, v.once z, fresh, same z);
    counted = omega (arith, nodes-put key (new_node x) h.ring, v.counted);
    few = few;
  },
  λ z. omega (arith, count-put key (new_node x) h.ring z),
)
  where
    same : (z : ℕ) → x ≡ z → count x h.ring ≡ count z h.ring
    same z e = ap (λ k. count k h.ring) e

-- What `removeMax` returns: a greatest object, and a heap of the others.
pub record Removed (key : ℕ → ℕ) (h : FibonacciHeap) (m : ℕ) (h' : FibonacciHeap) : Type 0 where
  pub valid : IsValid key h'
  pub held : 0 < holds m h
  pub greatest : (z : ℕ) → 0 < holds z h → key z ≤ key m
  pub others : (z : ℕ) → holds z h ≡ one_of m z + holds z h'
  pub fewer : h.number_of_nodes ≡ h'.number_of_nodes + 1

remove_from :
    (key : ℕ → ℕ) (ring : Forest) (n : ℕ)
    → IsHeap key ring
    → IsRanked ring
    → ((z : ℕ) → count z ring ≤ 1)
    → n ≡ nodes ring
    → n < int_limit
    → 0 < n
    → (m : ℕ) × (h' : FibonacciHeap) × (remove_max key (record { ring = ring; number_of_nodes = n })
        ≡ some (m, h'))
      × Removed key (record { ring = ring; number_of_nodes = n }) m h'
unfolding remove_max nodes count
remove_from key nil n u r o c f s = absurd (omega (arith, c, s))
remove_from key (add m mk ch rest) n (b, (bc, oc, os)) (s, rc, rs) o c f _ =
    let size = nodes-release ch rest in
    let (ring, returned, heap, ranked, counts, sizes) =
      degreewise_merge_fits key (release ch rest) (release-IsOrdered key ch rest oc os)
        (release-IsRanked ch rest rc rs) (omega (arith, size, c, f)) in
    let others = λ (z : ℕ). counts z ∙ count-release ch rest z in
    (
      m,
      record { ring = ring; number_of_nodes = n - 1 },
      rw (returned, ◌>>=◌) refl,
      record {
        valid = record {
          heap = heap;
          ranked = ranked;
          once = λ z. omega (arith, o z, others z);
          counted = omega (arith, c, sizes, size);
          few = omega (arith, f);
        };
        held = ground arith;
        greatest = λ z held. greatest_first key m z mk ch rest (b, (bc, oc, os)) held;
        others = λ z. omega (arith, others z);
        fewer = omega (arith, c);
      },
    )

-- `removeMax` of a valid heap that is not empty takes a greatest object out of it.
pub remove_max_lem :
    (key : ℕ → ℕ) (h : FibonacciHeap)
    → IsValid key h
    → 0 < h.number_of_nodes
    → (m : ℕ) × (h' : FibonacciHeap) × (remove_max key h ≡ some (m, h')) × Removed key h m h'
remove_max_lem key h v some_left =
    remove_from key h.ring h.number_of_nodes v.heap v.ranked v.once v.counted v.few some_left
