-- ===== src/Tests/Routes.antt =====
-- The Fibonacci heap and the choice of paths on small examples.
use drtp.Base.{ℕ, suc, ◌+◌, ◌≤◌, ◌≡◌, refl, false, some, arith, ◌==◌, if◌then◌else◌}
use drtp.FibonacciHeap.{
  Forest, nil, add, FibonacciHeap, empty, insert, remove_max, increase_key, degree,
  degreewise_merge,
}
use drtp.FibonacciHeap.Content.{count, nodes}
use drtp.FibonacciHeap.Order.{IsHeap}
use drtp.FibonacciHeap.Fibonacci.{fib, low}
use drtp.FibonacciHeap.Rank.{ranks, IsRanked, IsSpread, fib-degree-le}
use drtp.FibonacciHeap.Merge.{degreewise_merge_fits}
use drtp.FibonacciHeap.Queue.{
  holds, one_of, IsValid, empty-IsValid, insert_lem, Removed, remove_max_lem,
}
use drtp.FibonacciHeap.Increase.{increase_key_lem}

-- The keys are those of the objects, and object 1 is given a greater one.
abbrev keys : ℕ → ℕ
keys z = z

abbrev raised_keys : ℕ → ℕ
raised_keys z = if z == 1 then 9 else z

abbrev two : FibonacciHeap
two = insert keys 2 (insert keys 1 empty)

abbrev three : FibonacciHeap
three = insert keys 3 two

no_object : (z : ℕ) → holds z empty ≡ 0
unfolding count
no_object z = refl

one-IsValid : IsValid keys (insert keys 1 empty)
one-IsValid = (insert_lem keys 1 empty (empty-IsValid keys) (no_object 1) (omega arith)).0

two-IsValid : IsValid keys two
two-IsValid =
    (insert_lem keys 2 (insert keys 1 empty) one-IsValid (unfold insert count in refl)
      (unfold insert in omega arith)).0

insert_lem_example : IsValid keys three × ((z : ℕ) → holds z three ≡ one_of 3 z + holds z two)
insert_lem_example =
    insert_lem keys 3 two two-IsValid (unfold insert count in refl) (unfold insert in omega arith)

remove_max_lem_example :
    (m : ℕ) × (h' : FibonacciHeap) × (remove_max keys three ≡ some (m, h'))
    × Removed keys three m h'
remove_max_lem_example =
    remove_max_lem keys three (insert_lem_example.0) (unfold insert in omega arith)

-- Object 1 is a child of object 2.
abbrev pair : FibonacciHeap
pair = record { ring = add 2 false (add 1 false nil nil) nil; number_of_nodes = 2 }

pair-IsValid : IsValid keys pair
unfolding count nodes ranks low degree
pair-IsValid = record {
  heap = (tt, ((omega arith, tt), (tt, tt, tt), tt));
  ranked = ((λ j. ground arith), ((λ j. omega arith), tt, tt), tt);
  once = λ z. ground arith;
  counted = refl;
  few = omega arith;
}

increase_key_lem_example :
    (h' : FibonacciHeap) × (increase_key raised_keys 1 pair ≡ some h')
    × IsValid raised_keys h'
    × ((z : ℕ) → holds z h' ≡ holds z pair)
    × (h'.number_of_nodes ≡ pair.number_of_nodes)
increase_key_lem_example =
    increase_key_lem keys raised_keys 1 pair pair-IsValid (unfold count in omega arith)
      ((λ z other. ground (arith, other)), omega arith)

-- It is cut and becomes the greatest.
raised_pair :
    increase_key raised_keys 1 pair
    ≡ some (record { ring = add 1 false nil (add 2 false nil nil); number_of_nodes = 2 })
unfolding increase_key
raised_pair = refl

-- A node with one child.
abbrev children : Forest
children = add 1 false nil nil

children-IsSpread : IsSpread children
unfolding ranks low degree
children-IsSpread j = ground arith

fib-degree-le_example : fib (suc (suc (degree children))) ≤ suc (nodes children)
fib-degree-le_example =
    fib-degree-le children children-IsSpread ((λ j. unfold ranks low in omega arith), tt, tt)

-- Two roots of degree 0, which become one of degree 1.
abbrev roots : Forest
roots = add 1 false nil (add 2 false nil nil)

roots-IsRanked : IsRanked roots
unfolding ranks low
roots-IsRanked = ((λ j. omega arith), tt, ((λ j. omega arith), tt, tt))

degreewise_merge_fits_example :
    (ring : Forest) × (degreewise_merge keys roots ≡ some ring)
    × IsHeap keys ring
    × IsRanked ring
    × ((z : ℕ) → count z ring ≡ count z roots)
    × (nodes ring ≡ nodes roots)
degreewise_merge_fits_example =
    degreewise_merge_fits keys roots (tt, tt, (tt, tt, tt)) roots-IsRanked
      (unfold nodes in omega arith)
