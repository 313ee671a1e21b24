-- ===== src/FibonacciHeap/Parted.antt =====
-- What is to be shown of `cut` and `cascadingCut` of lltc-fibonacci-heap.cpp: a list of nodes that are in
-- order but for one with a greater key than before, and what is left of it without the cut nodes.
use drtp.Base.{
  ℕ, suc, ◌+◌, ◌≤◌, ◌<◌, ◌≡◌, refl, Bool, true, false, Option, none, some, arith, ◌==◌, ltb, inl,
  inr, Bool-cases,
}
use drtp.FibonacciHeap.{Forest, nil, add, degree, Raised, absent, kept, parted, raise_here}
use drtp.FibonacciHeap.Content.{count, nodes}
use drtp.FibonacciHeap.Order.{Below, IsOrdered}
use drtp.FibonacciHeap.Fibonacci.{low}
use drtp.FibonacciHeap.Rank.{ranks, IsRanked}

-- The heap order but for the node that holds the object.
abbrev pub BelowBut : ℕ → (ℕ → ℕ) → ℕ → Forest → Type 0
BelowBut x key b nil = Unit {0}
BelowBut x key b (add y mk ch rest) = ((y == x) ≡ false → key y ≤ b) × BelowBut x key b rest

abbrev pub IsOrderedBut : ℕ → (ℕ → ℕ) → Forest → Type 0
IsOrderedBut x key nil = Unit {0}
IsOrderedBut x key (add y mk ch rest) =
    BelowBut x key (key y) ch × IsOrderedBut x key ch × IsOrderedBut x key rest

pub BelowBut-others :
    (x : ℕ) (key : ℕ → ℕ) (b : ℕ) (f : Forest) → count x f ≡ 0 → BelowBut x key b f → Below key b f
unfolding count
BelowBut-others x key b nil e u = tt
BelowBut-others x key b (add y mk ch rest) e (u, us) =
    let other : (y == x) ≡ false = ground (arith, e) in
    (u other, BelowBut-others x key b rest (omega (arith, e)) us)

pub IsOrderedBut-others :
    (x : ℕ) (key : ℕ → ℕ) (f : Forest) → count x f ≡ 0 → IsOrderedBut x key f → IsOrdered key f
unfolding count
IsOrderedBut-others x key nil e u = tt
IsOrderedBut-others x key (add y mk ch rest) e (b, u, us) = (
  BelowBut-others x key (key y) ch (omega (arith, e)) b,
  IsOrderedBut-others x key ch (omega (arith, e)) u,
  IsOrderedBut-others x key rest (omega (arith, e)) us,
)

abbrev pub Under : (ℕ → ℕ) → Option ℕ → Forest → Type 0
Under key none f = Unit {0}
Under key (some p) f = Below key (key p) f

abbrev pub UnderBut : ℕ → (ℕ → ℕ) → Option ℕ → Forest → Type 0
UnderBut x key none f = Unit {0}
UnderBut x key (some p) f = BelowBut x key (key p) f

abbrev pub first : Forest → Option ℕ
first nil = none
first (add x mk ch rest) = some x

-- The first of the roots stays; the ranks of a list of children stay spread, and it has lost one node or none.
abbrev pub Narrowed : Option ℕ → Forest → Forest → Bool → Type 0
Narrowed none f f' lost = (lost ≡ false) × (first f' ≡ first f)
Narrowed (some p) f f' true =
    ((j : ℕ) → low j (ranks f') ≤ low j (ranks f)) × (degree f ≡ suc (degree f'))
Narrowed (some p) f f' false =
    ((j : ℕ) → low j (ranks f') ≤ low j (ranks f)) × (degree f ≡ degree f')

pub record Parted (x : ℕ) (key : ℕ → ℕ) (p : Option ℕ) (f f' cuts : Forest) (lost : Bool)
    : Type 0 where
  pub ordered : IsOrdered key f'
  pub under : Under key p f'
  pub cuts_ordered : IsOrdered key cuts
  pub ranked : IsRanked f'
  pub cuts_ranked : IsRanked cuts
  pub counts : (z : ℕ) → count z f' + count z cuts ≡ count z f
  pub sizes : nodes f' + nodes cuts ≡ nodes f
  pub narrowed : Narrowed p f f' lost
  pub found : 0 < count x f

abbrev pub IsRaised : (ℕ → ℕ) → ℕ → Option ℕ → Forest → Raised → Type 0
IsRaised key x p f absent = count x f ≡ 0
IsRaised key x p f kept = (IsOrdered key f × Under key p f) × (0 < count x f)
IsRaised key x p f (parted f' cuts lost) = Parted x key p f f' cuts lost

-- The object's own node.
pub raise_here-IsRaised :
    (key : ℕ → ℕ) (x : ℕ) (mk : Bool) (ch rest : Forest) (p : Option ℕ)
    → IsOrdered key (add x mk ch rest)
    → UnderBut x key p (add x mk ch rest)
    → count x rest ≡ 0
    → IsRanked (add x mk ch rest)
    → IsRaised key x p (add x mk ch rest) (raise_here key x ch rest p)
unfolding raise_here count nodes ranks degree low
raise_here-IsRaised key x mk ch rest none o u e r = ((o, tt), ground arith)
raise_here-IsRaised key x mk ch rest (some p) (b, o, os) (u, us) e (s, r, rs) =
    let under = BelowBut-others x key (key p) rest e us in
    elim (Bool-cases (ltb (key p) (key x))) [
      | inl f ↦ rw f (record {
        ordered = os;
        under = under;
        cuts_ordered = (b, o, tt);
        ranked = rs;
        cuts_ranked = (s, r, tt);
        counts = λ z. omega arith;
        sizes = omega arith;
        narrowed = (λ j. ground arith, refl);
        found = ground arith;
      })
      | inr f ↦ rw f (((b, o, os), (ground (arith, f), under)), ground arith)
    ]
