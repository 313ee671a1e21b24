-- ===== src/FibonacciHeap/Increase.antt =====
-- `updateKey` of lltc-fibonacci-heap.cpp: an object whose key has grown.
use drtp.Base.{
  ℕ, ◌≤◌, ◌<◌, ◌≡◌, refl, ap, ◌∙◌, Bool, false, none, some, arith, ◌==◌, inl, inr, Bool-cases,
  ◌>>=◌,
}
use drtp.FibonacciHeap.{
  Forest, nil, add, FibonacciHeap, Raised, absent, kept, parted, raise, put_cuts, after_raise,
  max_key_below, new_max, increase_key,
}
use drtp.FibonacciHeap.Content.{count, nodes, count-join, nodes-join}
use drtp.FibonacciHeap.Order.{IsOrdered, IsHeap, join-IsOrdered, greatest_first}
use drtp.FibonacciHeap.Rank.{IsRanked, join-IsRanked}
use drtp.FibonacciHeap.Parted.{Parted, IsRaised}
use drtp.FibonacciHeap.Raise.{raise-IsRaised}
use drtp.FibonacciHeap.Parted.{first}
use drtp.FibonacciHeap.Queue.{holds, IsValid}
use drtp.FibonacciHeap.NewMax.{
  IsIncrease, no_less, increased-IsOrderedBut, rooted-BelowBut, read_from-IsRanked, count-read_from,
  nodes-read_from, new_max-IsHeap,
}

-- The roots after the search, with the objects of the heap before, of which the first is the same.
record Searched (key : ℕ → ℕ) (ring ring' : Forest) : Type 0 where
  ordered : IsOrdered key ring'
  ranked : IsRanked ring'
  same_first : first ring' ≡ first ring
  counts : (z : ℕ) → count z ring' ≡ count z ring
  sizes : nodes ring' ≡ nodes ring

put_cuts-Searched :
    (key : ℕ → ℕ) (x : ℕ) (ring f cuts : Forest) (lost : Bool)
    → 0 < count x ring
    → Parted x key none ring f cuts lost
    → Searched key ring (put_cuts cuts f)
unfolding put_cuts count nodes
put_cuts-Searched key x nil nil cuts lost held part = absurd (omega (arith, held))
put_cuts-Searched key x (add y mk ch rest) nil cuts lost held part =
    absurd (let e : none ≡ some y = part.narrowed.1 in let g : ⊥ = cc in g)
put_cuts-Searched key x ring (add m mk ch rest) cuts lost held part =
    let (b, o, os) = part.ordered in
    let (s, r, rs) = part.ranked in
    record {
      ordered = (b, o, join-IsOrdered key cuts rest part.cuts_ordered os);
      ranked = (s, r, join-IsRanked cuts rest part.cuts_ranked rs);
      same_first = part.narrowed.1;
      counts = λ z. omega (arith, part.counts z, count-join z cuts rest);
      sizes = omega (arith, part.sizes, nodes-join cuts rest);
    }

after_raise-Searched :
    (key : ℕ → ℕ) (x : ℕ) (ring : Forest) (r : Raised)
    → 0 < count x ring
    → IsRanked ring
    → IsRaised key x none ring r
    → (ring' : Forest) × (after_raise ring r ≡ some ring') × Searched key ring ring'
unfolding after_raise
after_raise-Searched key x ring absent held ranked e = absurd (omega (arith, held, e))
after_raise-Searched key x ring kept held ranked ((o, _), _) = (
  ring,
  refl,
  record { ordered = o; ranked = ranked; same_first = refl; counts = λ z. refl; sizes = refl },
)
after_raise-Searched key x ring (parted f cuts lost) held ranked part =
    (put_cuts cuts f, refl, put_cuts-Searched key x ring f cuts lost held part)

-- The keys of all objects but one are at most that of the first root.
IsFirst : ℕ → (ℕ → ℕ) → Forest → Forest → Type 0
IsFirst x key ring nil = Unit {0}
IsFirst x key ring (add m mk ch rest) =
    (z : ℕ) → (z == x) ≡ false → 0 < count z ring → key z ≤ key m

new_max-IsRanked : (key : ℕ → ℕ) (x : ℕ) (f : Forest) → IsRanked f → IsRanked (new_max key x f)
unfolding new_max
new_max-IsRanked key x f r = elim (Bool-cases (max_key_below key x f)) [
  | inl e ↦ rw e (read_from-IsRanked x nil f tt r)
  | inr e ↦ rw e r
]

count-new_max : (key : ℕ → ℕ) (x : ℕ) (f : Forest) (z : ℕ) → count z (new_max key x f) ≡ count z f
unfolding new_max count
count-new_max key x f z = ground (arith, count-read_from x nil f z)

nodes-new_max : (key : ℕ → ℕ) (x : ℕ) (f : Forest) → nodes (new_max key x f) ≡ nodes f
unfolding new_max nodes
nodes-new_max key x f = ground (arith, nodes-read_from x nil f)

new_max-Searched :
    (key : ℕ → ℕ) (x : ℕ) (ring ring' : Forest)
    → 0 < count x ring
    → Searched key ring ring'
    → IsFirst x key ring ring'
    → IsHeap key (new_max key x ring')
      × IsRanked (new_max key x ring')
      × ((z : ℕ) → count z (new_max key x ring') ≡ count z ring)
      × (nodes (new_max key x ring') ≡ nodes ring)
unfolding IsFirst
new_max-Searched key x ring nil held s f = absurd (unfold count in omega (arith, s.counts x, held))
new_max-Searched key x ring (add m mk ch rest) held s f = (
  new_max-IsHeap key x m mk ch rest s.ordered
      (rooted-BelowBut key x (key m) rest
        (λ z other inside. f z other (unfold count in omega (arith, s.counts z, inside))))
      (omega (arith, s.counts x, held)),
  new_max-IsRanked key x (add m mk ch rest) s.ranked,
  λ z. count-new_max key x (add m mk ch rest) z ∙ s.counts z,
  nodes-new_max key x (add m mk ch rest) ∙ s.sizes,
)

searched-IsFirst :
    (key key' : ℕ → ℕ) (x : ℕ) (ring ring' : Forest)
    → IsIncrease key key' x
    → IsHeap key ring
    → first ring' ≡ first ring
    → IsFirst x key' ring ring'
unfolding IsFirst
searched-IsFirst key key' x ring nil i u e = tt
searched-IsFirst key key' x nil (add m mk ch rest) i u e =
    λ z other held. absurd (let e' : some m ≡ none = e in let g : ⊥ = cc in g)
searched-IsFirst key key' x (add n mk' ch' rest') (add m mk ch rest) i u e = λ z other held.
    let e' : some m ≡ some n = e in
    let same : m ≡ n = cc in
    let most = greatest_first key n z mk' ch' rest' u held in
    omega (arith, most, (i.0) z other, no_less key key' x n i, ap key' same)

-- `updateKey` of an object in a valid heap whose key has grown, and those of the others not changed,
-- returns a valid heap of the same objects.
pub increase_key_lem :
    (key key' : ℕ → ℕ) (x : ℕ) (h : FibonacciHeap)
    → IsValid key h
    → 0 < holds x h
    → IsIncrease key key' x
    → (h' : FibonacciHeap) × (increase_key key' x h ≡ some h')
      × IsValid key' h'
      × ((z : ℕ) → holds z h' ≡ holds z h)
      × (h'.number_of_nodes ≡ h.number_of_nodes)
unfolding increase_key
increase_key_lem key key' x h v held i =
    let ordered = heap-IsOrdered h.ring v.heap in
    let r = raise key' x none h.ring in
    let (ring, returned, s) = after_raise-Searched key' x h.ring r held v.ranked (
      raise-IsRaised key' x none h.ring (v.once x)
        (increased-IsOrderedBut key key' x h.ring i ordered) tt v.ranked) in
    let (heap, ranked, counts, sizes) =
      new_max-Searched key' x h.ring ring held s
        (searched-IsFirst key key' x h.ring ring i v.heap s.same_first) in
    (
      record h { ring = new_max key' x ring },
      rw (returned, ◌>>=◌) refl,
      record {
        heap = heap;
        ranked = ranked;
        once = λ z. omega (arith, counts z, v.once z);
        counted = omega (arith, sizes, v.counted);
        few = v.few;
      },
      counts,
      refl,
    )
  where
    heap-IsOrdered : (f : Forest) → IsHeap key f → IsOrdered key f
    heap-IsOrdered nil u = tt
    heap-IsOrdered (add m mk ch rest) (b, u) = u
