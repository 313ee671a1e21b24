-- ===== src/FibonacciHeap/Raise.antt =====
-- What the search, `cut` and `cascadingCut` of lltc-fibonacci-heap.cpp do to a list of nodes, one of
-- which has a greater key than before.
use drtp.Base.{
  ℕ, ◌≤◌, ◌≡◌, refl, sym, ap, Bool, true, false, Option, none, some, arith, ◌==◌, inl, inr,
  Bool-cases,
}
use drtp.FibonacciHeap.{
  Forest, nil, add, degree, Raised, absent, kept, parted, raise_here, cascading_cut, behind, above,
  raise,
}
use drtp.FibonacciHeap.Content.{count, nodes}
use drtp.FibonacciHeap.Order.{IsOrdered, weaken}
use drtp.FibonacciHeap.Fibonacci.{low}
use drtp.FibonacciHeap.Rank.{rank, ranks, IsSpread, IsRanked}
use drtp.FibonacciHeap.Parted.{
  IsOrderedBut, BelowBut-others, IsOrderedBut-others, Under, UnderBut, Narrowed, Parted, IsRaised,
  raise_here-IsRaised,
}

IsSpread-still :
    (y : ℕ) (ch ch' : Forest) (lost : Bool)
    → IsSpread ch
    → Narrowed (some y) ch ch' lost
    → IsSpread ch'
IsSpread-still y ch ch' true s n j = omega (arith, s j, (n.0) j)
IsSpread-still y ch ch' false s n j = omega (arith, s j, (n.0) j)

Narrowed-at :
    (p : Option ℕ) (y : ℕ) (mk mk' : Bool) (ch ch' rest : Forest)
    → rank mk' ch' ≡ rank mk ch
    → Narrowed p (add y mk ch rest) (add y mk' ch' rest) false
unfolding ranks degree low
Narrowed-at none y mk mk' ch ch' rest e = (refl, refl)
Narrowed-at (some p) y mk mk' ch ch' rest e = (λ j. rw e (omega arith), refl)

module _ (key : ℕ → ℕ) (x y : ℕ) (mk : Bool) (ch ch' rest cuts : Forest) (lost : Bool)
    (part : Parted x key (some y) ch ch' cuts lost) (ordered : IsOrdered key rest)
    (ranked : IsRanked (add y mk ch rest)) where
  -- The children are exchanged, and the mark with them.
  exchanged :
      (mk' : Bool) (p : Option ℕ)
      → Under key p (add y mk ch rest)
      → Narrowed p (add y mk ch rest) (add y mk' ch' rest) false
      → Parted x key p (add y mk ch rest) (add y mk' ch' rest) cuts false
  unfolding count nodes
  exchanged mk' p u n = record {
    ordered = (part.under, part.ordered, ordered);
    under = under p u;
    cuts_ordered = part.cuts_ordered;
    ranked = (IsSpread-still y ch ch' lost (ranked.0) part.narrowed, part.ranked, ranked.2);
    cuts_ranked = part.cuts_ranked;
    counts = λ z. omega (arith, part.counts z);
    sizes = omega (arith, part.sizes);
    narrowed = n;
    found = omega (arith, part.found);
  }
    where
      under : (q : Option ℕ) → Under key q (add y mk ch rest) → Under key q (add y mk' ch' rest)
      under none v = tt
      under (some q) v = v

  -- The node is cut itself.
  cut_too :
      (p : ℕ)
      → Under key (some p) (add y mk ch rest)
      → Parted x key (some p) (add y mk ch rest) rest (add y false ch' cuts) true
  unfolding count nodes ranks degree low
  cut_too p u = record {
    ordered = ordered;
    under = u.1;
    cuts_ordered = (part.under, part.ordered, part.cuts_ordered);
    ranked = ranked.2;
    cuts_ranked =
        (IsSpread-still y ch ch' lost (ranked.0) part.narrowed, part.ranked, part.cuts_ranked);
    counts = λ z. omega (arith, part.counts z);
    sizes = omega (arith, part.sizes);
    narrowed = (λ j. ground arith, refl);
    found = omega (arith, part.found);
  }

same_rank :
    (mk : Bool) (y : ℕ) (ch ch' : Forest)
    → Narrowed (some y) ch ch' false
    → rank mk ch' ≡ rank mk ch
same_rank true y ch ch' n = omega (arith, n.1)
same_rank false y ch ch' n = omega (arith, n.1)

above-IsRaised :
    (key : ℕ → ℕ) (x y : ℕ) (mk : Bool) (ch ch' rest cuts : Forest) (lost : Bool) (p : Option ℕ)
    (later : Raised)
    → Parted x key (some y) ch ch' cuts lost
    → IsOrdered key rest
    → IsRanked (add y mk ch rest)
    → Under key p (add y mk ch rest)
    → IsRaised key x p (add y mk ch rest) (above y mk rest p later (parted ch' cuts lost))
unfolding above cascading_cut
above-IsRaised key x y mk ch ch' rest cuts true none later part o r u =
    exchanged key x y mk ch ch' rest cuts true part o r mk none u (refl, refl)
above-IsRaised key x y true ch ch' rest cuts true (some p) later part o r u =
    cut_too key x y true ch ch' rest cuts true part o r p u
above-IsRaised key x y false ch ch' rest cuts true (some p) later part o r u =
    exchanged key x y false ch ch' rest cuts true part o r true (some p) u
      (Narrowed-at (some p) y false true ch ch' rest (sym (part.narrowed.1)))
above-IsRaised key x y mk ch ch' rest cuts false p later part o r u =
    exchanged key x y mk ch ch' rest cuts false part o r mk p u
      (Narrowed-at p y mk mk ch ch' rest (same_rank mk y ch ch' part.narrowed))

-- The object is behind the node, if it is anywhere.
behind-IsRaised :
    (key : ℕ → ℕ) (x y : ℕ) (mk : Bool) (ch rest : Forest) (p : Option ℕ) (r : Raised)
    → (y == x) ≡ false
    → count x ch ≡ 0
    → IsOrderedBut x key (add y mk ch rest)
    → UnderBut x key p (add y mk ch rest)
    → IsRanked (add y mk ch rest)
    → IsRaised key x p rest r
    → IsRaised key x p (add y mk ch rest) (behind y mk ch r)
unfolding behind count nodes
behind-IsRaised key x y mk ch rest p absent other free o u ranked h = ground arith
behind-IsRaised key x y mk ch rest p kept other free (b, o, os) u ranked ((os', us'), here) = (
  (
    (BelowBut-others x key (key y) ch free b, IsOrderedBut-others x key ch free o, os'),
    under p u us',
  ),
  omega (arith, here),
)
  where
    under :
        (q : Option ℕ)
        → UnderBut x key q (add y mk ch rest)
        → Under key q rest
        → Under key q (add y mk ch rest)
    under none v w = tt
    under (some q) v w = (v.0 other, w)
behind-IsRaised key x y mk ch rest p (parted f' cuts lost) other free (b, o, os) u (s, r, rs) part =
    record {
      ordered = (
        BelowBut-others x key (key y) ch free b,
        IsOrderedBut-others x key ch free o,
        part.ordered,
      );
      under = under p u part.under;
      cuts_ordered = part.cuts_ordered;
      ranked = (s, r, part.ranked);
      cuts_ranked = part.cuts_ranked;
      counts = λ z. omega (arith, part.counts z);
      sizes = omega (arith, part.sizes);
      narrowed = narrower p lost part.narrowed;
      found = omega (arith, part.found);
    }
  where
    under :
        (q : Option ℕ)
        → UnderBut x key q (add y mk ch rest)
        → Under key q f'
        → Under key q (add y mk ch f')
    under none v w = tt
    under (some q) v w = (v.0 other, w)

    narrower :
        (q : Option ℕ) (l : Bool)
        → Narrowed q rest f' l
        → Narrowed q (add y mk ch rest) (add y mk ch f') l
    narrower none l n = (n.0, refl)
    narrower (some q) true n =
        unfold ranks low degree in (λ j. ground (arith, (n.0) j), omega (arith, n.1))
    narrower (some q) false n =
        unfold ranks low degree in (λ j. ground (arith, (n.0) j), omega (arith, n.1))

module _ (key : ℕ → ℕ) (x : ℕ) where
  tail :
      (y : ℕ) (mk : Bool) (ch rest : Forest) (p : Option ℕ)
      → UnderBut x key p (add y mk ch rest)
      → UnderBut x key p rest
  tail y mk ch rest none u = tt
  tail y mk ch rest (some p) u = u.1

  under :
      (y : ℕ) (mk : Bool) (ch rest : Forest) (p : Option ℕ)
      → (y == x) ≡ false
      → count x rest ≡ 0
      → UnderBut x key p (add y mk ch rest)
      → Under key p (add y mk ch rest)
  under y mk ch rest none other e u = tt
  under y mk ch rest (some p) other e u = (u.0 other, BelowBut-others x key (key p) rest e u.1)

  renamed :
      (y : ℕ) (mk : Bool) (ch rest : Forest) (p : Option ℕ)
      → UnderBut x key p (add y mk ch rest)
      → UnderBut x key p (add x mk ch rest)
  renamed y mk ch rest none u = tt
  renamed y mk ch rest (some p) u = (λ f. ground (arith, f), u.1)

  own :
      (y : ℕ) (mk : Bool) (ch rest : Forest) (p : Option ℕ)
      → y ≡ x
      → (count x ch ≡ 0) × (count x rest ≡ 0)
      → IsOrderedBut x key (add y mk ch rest)
      → UnderBut x key p (add y mk ch rest)
      → IsRanked (add y mk ch rest)
      → IsRaised key x p (add y mk ch rest) (raise_here key y ch rest p)
  own y mk ch rest p e (inner, behind_) (b, o, os) u r =
      let keys : key y ≡ key x = ap key e in
      rw e (
        raise_here-IsRaised key x mk ch rest p
          (
            weaken key (key y) (key x) ch (omega (arith, keys))
                (BelowBut-others x key (key y) ch inner b),
            IsOrderedBut-others x key ch inner o,
            IsOrderedBut-others x key rest behind_ os,
          )
          (renamed y mk ch rest p u) behind_ r)

  -- The node is not the object's: what is found under it, or else behind it, settles it.
  passed-IsRaised :
      (y : ℕ) (mk : Bool) (ch rest : Forest) (p : Option ℕ) (inside later : Raised)
      → (y == x) ≡ false
      → count x (add y mk ch rest) ≤ 1
      → IsOrderedBut x key (add y mk ch rest)
      → UnderBut x key p (add y mk ch rest)
      → IsRanked (add y mk ch rest)
      → IsRaised key x (some y) ch inside
      → IsRaised key x p rest later
      → IsRaised key x p (add y mk ch rest) (above y mk rest p (behind y mk ch later) inside)
  unfolding above count
  passed-IsRaised y mk ch rest p absent later other once o u r here there =
      behind-IsRaised key x y mk ch rest p later other here o u r there
  passed-IsRaised y mk ch rest p kept later other once (b, o, os) u r ((oi, ui), found) there =
      let none_behind : count x rest ≡ 0 = ground (arith, other, once, found) in
      (
        (
          (ui, oi, IsOrderedBut-others x key rest none_behind os),
          under y mk ch rest p other none_behind u,
        ),
        omega (arith, found),
      )
  passed-IsRaised y mk ch rest p (parted ch' cuts lost) later other once (b, o, os) u r part there =
      let none_behind : count x rest ≡ 0 = ground (arith, other, once, part.found) in
      above-IsRaised key x y mk ch ch' rest cuts lost p (behind y mk ch later) part
        (IsOrderedBut-others x key rest none_behind os) r (under y mk ch rest p other none_behind u)

  -- The search of a list that holds the object at most once.
  pub raise-IsRaised :
      (p : Option ℕ) (f : Forest)
      → count x f ≤ 1
      → IsOrderedBut x key f
      → UnderBut x key p f
      → IsRanked f
      → IsRaised key x p f (raise key x p f)
  unfolding raise count
  raise-IsRaised p nil once o u r = refl
  raise-IsRaised p (add y mk ch rest) once (b, o, os) u (s, r, rs) =
      let inside = raise-IsRaised (some y) ch (omega (arith, once)) o b r in
      let later = raise-IsRaised p rest (omega (arith, once)) os (tail y mk ch rest p u) rs in
      elim (Bool-cases (y == x)) [
        | inl e ↦
            let same : y ≡ x = ground arith in
            rw e (own y mk ch rest p same (ground (arith, e, once)) (b, o, os) u (s, r, rs))
        | inr e ↦ rw e (
            passed-IsRaised y mk ch rest p (raise key x (some y) ch) (raise key x p rest) e once
              (b, o, os) u (s, r, rs) inside later)
      ]
