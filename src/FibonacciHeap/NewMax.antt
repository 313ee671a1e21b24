-- ===== src/FibonacciHeap/NewMax.antt =====
-- `updateKey` of lltc-fibonacci-heap.cpp: the heap before its search, and the comparison with the maximum
-- at its end.
use drtp.Base.{
  ℕ, ◌+◌, ◌≤◌, ◌<◌, ◌≡◌, ap, Bool, true, false, arith, ◌==◌, ltb, inl, inr, Bool-cases,
  if◌then◌else◌,
}
use drtp.FibonacciHeap.{Forest, nil, add, join, read_from, max_key_below, new_max}
use drtp.FibonacciHeap.Content.{count, nodes, count-join, nodes-join}
use drtp.FibonacciHeap.Order.{
  Below, IsOrdered, IsHeap, weaken, join-Below, join-IsOrdered, Below-all,
}
use drtp.FibonacciHeap.Rank.{IsRanked, join-IsRanked}
use drtp.FibonacciHeap.Parted.{BelowBut, IsOrderedBut}

-- Keys that are as before but for one object, whose key is no less.
abbrev pub IsIncrease : (ℕ → ℕ) → (ℕ → ℕ) → ℕ → Type 0
IsIncrease key key' x = ((z : ℕ) → (z == x) ≡ false → key' z ≡ key z) × (key x ≤ key' x)

increased-BelowBut :
    (key key' : ℕ → ℕ) (x b b' : ℕ) (f : Forest)
    → IsIncrease key key' x
    → b ≤ b'
    → Below key b f
    → BelowBut x key' b' f
increased-BelowBut key key' x b b' nil i l u = tt
increased-BelowBut key key' x b b' (add y mk ch rest) i l (u, us) =
    ((λ other. omega (arith, (i.0) y other, u, l)), increased-BelowBut key key' x b b' rest i l us)

pub no_less : (key key' : ℕ → ℕ) (x y : ℕ) → IsIncrease key key' x → key y ≤ key' y
no_less key key' x y i = elim (Bool-cases (y == x)) [
  | inl e ↦ let same : y ≡ x = ground arith in omega (arith, i.1, ap key same, ap key' same)
  | inr e ↦ omega (arith, (i.0) y e)
]

pub increased-IsOrderedBut :
    (key key' : ℕ → ℕ) (x : ℕ) (f : Forest)
    → IsIncrease key key' x
    → IsOrdered key f
    → IsOrderedBut x key' f
increased-IsOrderedBut key key' x nil i u = tt
increased-IsOrderedBut key key' x (add y mk ch rest) i (b, u, us) = (
  increased-BelowBut key key' x (key y) (key' y) ch i (no_less key key' x y i) b,
  increased-IsOrderedBut key key' x ch i u,
  increased-IsOrderedBut key key' x rest i us,
)

-- The roots whose objects have keys of at most this, where that is so of all objects but one.
pub rooted-BelowBut :
    (key : ℕ → ℕ) (x b : ℕ) (f : Forest)
    → ((z : ℕ) → (z == x) ≡ false → 0 < count z f → key z ≤ b)
    → BelowBut x key b f
unfolding count
rooted-BelowBut key x b nil h = tt
rooted-BelowBut key x b (add y mk ch rest) h = (
  λ other. h y other (ground arith),
  rooted-BelowBut key x b rest (λ z other held. h z other (omega (arith, held))),
)

has_root : ℕ → Forest → Bool
has_root x nil = false
has_root x (add y mk ch rest) = if y == x then true else has_root x rest

no_root-Below :
    (key : ℕ → ℕ) (x b : ℕ) (f : Forest) → has_root x f ≡ false → BelowBut x key b f → Below key b f
unfolding has_root
no_root-Below key x b nil e u = tt
no_root-Below key x b (add y mk ch rest) e (u, us) = elim (Bool-cases (y == x)) [
  | inl f ↦ absurd (ground (arith, e, f))
  | inr f ↦ (u f, no_root-Below key x b rest (ground (arith, e, f)) us)
]

but-Below :
    (key : ℕ → ℕ) (x b c : ℕ) (f : Forest) → b ≤ c → key x ≤ c → BelowBut x key b f → Below key c f
but-Below key x b c nil l k u = tt
but-Below key x b c (add y mk ch rest) l k (u, us) = (here, but-Below key x b c rest l k us)
  where
    here : key y ≤ c
    here = elim (Bool-cases (y == x)) [
      | inl e ↦ let same : y ≡ x = ground arith in omega (arith, ap key same, k)
      | inr e ↦ omega (arith, u e, l)
    ]

read_from-IsHeap :
    (key : ℕ → ℕ) (x : ℕ) (front f : Forest)
    → has_root x f ≡ true
    → Below key (key x) front
    → IsOrdered key front
    → Below key (key x) f
    → IsOrdered key f
    → IsHeap key (read_from x front f)
unfolding read_from has_root
read_from-IsHeap key x front nil e u o v p = absurd (let g : ⊥ = cc in g)
read_from-IsHeap key x front (add y mk ch rest) e u o (v, vs) (b, p, ps) =
    elim (Bool-cases (y == x)) [
      | inl f ↦
          let same : y ≡ x = ground arith in
          let keys : key y ≡ key x = ap key same in
          rw f (
            weaken key (key x) (key y) (join rest front) (omega (arith, keys))
                (join-Below key (key x) rest front vs u),
            (b, p, join-IsOrdered key rest front ps o),
          )
      | inr f ↦ rw f (
          read_from-IsHeap key x (join front (add y mk ch nil)) rest (ground (arith, e, f))
            (join-Below key (key x) front (add y mk ch nil) u (v, tt))
            (join-IsOrdered key front (add y mk ch nil) o (b, p, tt)) vs ps)
    ]

pub read_from-IsRanked :
    (x : ℕ) (front f : Forest) → IsRanked front → IsRanked f → IsRanked (read_from x front f)
unfolding read_from
read_from-IsRanked x front nil u v = u
read_from-IsRanked x front (add y mk ch rest) u (s, v, vs) = elim (Bool-cases (y == x)) [
  | inl f ↦ rw f (s, v, join-IsRanked rest front vs u)
  | inr f ↦ rw f (
      read_from-IsRanked x (join front (add y mk ch nil)) rest
        (join-IsRanked front (add y mk ch nil) u (s, v, tt)) vs)
]

pub count-read_from :
    (x : ℕ) (front f : Forest) (z : ℕ) → count z (read_from x front f) ≡ count z front + count z f
unfolding read_from count
count-read_from x front nil z = omega arith
count-read_from x front (add y mk ch rest) z = ground (
  arith,
  count-read_from x (join front (add y mk ch nil)) rest z,
  count-join z rest front,
  count-join z front (add y mk ch nil),
)

pub nodes-read_from :
    (x : ℕ) (front f : Forest) → nodes (read_from x front f) ≡ nodes front + nodes f
unfolding read_from nodes
nodes-read_from x front nil = omega arith
nodes-read_from x front (add y mk ch rest) = ground (
  arith,
  nodes-read_from x (join front (add y mk ch nil)) rest,
  nodes-join rest front,
  nodes-join front (add y mk ch nil),
)

pub new_max-IsHeap :
    (key : ℕ → ℕ) (x m : ℕ) (mk : Bool) (ch rest : Forest)
    → IsOrdered key (add m mk ch rest)
    → BelowBut x key (key m) rest
    → 0 < count x (add m mk ch rest)
    → IsHeap key (new_max key x (add m mk ch rest))
unfolding new_max max_key_below
new_max-IsHeap key x m mk ch rest (b, o, os) u held = elim (Bool-cases (ltb (key m) (key x))) [
  | inr e ↦
      let less : key x ≤ key m = ground arith in
      rw e (but-Below key x (key m) (key m) rest (omega arith) less u, (b, o, os))
  | inl e ↦
      let less : key m ≤ key x = ground arith in
      let strict : key m < key x = ground arith in
      elim (Bool-cases (has_root x (add m mk ch rest))) [
        | inl root ↦ rw e (
            read_from-IsHeap key x nil (add m mk ch rest) root tt tt
              (less, but-Below key x (key m) (key x) rest less (omega arith) u) (b, o, os))
        | inr none_there ↦
            let most =
              Below-all key (key m) x (add m mk ch rest)
                (no_root-Below key x (key m) (add m mk ch rest) none_there
                  ((λ other. omega arith), u))
                (b, o, os) held in
            absurd (omega (arith, most, strict))
      ]
]
