-- ===== src/FibonacciHeap.antt =====
-- model/lltc/lltc-fibonacci-heap.cpp and .hpp (ndnSIM/ns-3/src/ndnSIM): the heap that the choice of
-- paths takes its greatest node from. A circular list of nodes is a forest, read along `right` from the
-- node that the heap (`maxNode`) or the parent (`child`) points at; `degree` is the length of the list
-- of children, and a null pointer is the empty list. A node object is a number, which
-- `nodeObjectMap` finds among the nodes: each object is inserted once. `key` gives the keys of the
-- objects when the operation runs; a `long` is offset by 2^63, so that it is a natural number.
pub mod Content
pub mod Order
pub mod Fibonacci
pub mod Rank
pub mod Merge
pub mod Parted
pub mod NewMax
pub mod Raise
pub mod Queue
pub mod Increase
use drtp.Base.{
  ℕ, zero, suc, ◌+◌, ◌-◌, Bool, true, false, Option, none, some, List, [], ◌∷◌, ◌==◌, ltb,
  if◌then◌else◌, ◌>>=◌,
}

-- The first node's object, mark and children, and the rest of the list.
pub data Forest : Type 0 where
  nil : Forest
  add : ℕ → Bool → Forest → Forest → Forest

pub record FibonacciHeapNode : Type 0 where
  pub node_object : ℕ
  pub mark : Bool
  pub children : Forest

-- `ring` starts at `maxNode`.
pub record FibonacciHeap : Type 0 where
  pub ring : Forest
  pub number_of_nodes : ℕ

abbrev pub empty : FibonacciHeap
empty = record { ring = nil; number_of_nodes = 0 }

unfoldable pub degree : Forest → ℕ
degree nil = 0
degree (add x mk ch rest) = suc (degree rest)

unfoldable pub join : Forest → Forest → Forest
join nil g = g
join (add x mk ch rest) g = add x mk ch (join rest g)

-- A node put to the right of `maxNode`, which becomes `maxNode` if its key is greater.
unfoldable pub put : (ℕ → ℕ) → FibonacciHeapNode → Forest → Forest
unfolding join
put key n nil = add n.node_object n.mark n.children nil
put key n (add m mk ch rest) =
    if ltb (key m) (key n.node_object)
    then add n.node_object n.mark n.children (join rest (add m mk ch nil))
    else add m mk ch (add n.node_object n.mark n.children rest)

abbrev pub new_node : ℕ → FibonacciHeapNode
new_node x = record { node_object = x; mark = false; children = nil }

-- `insert`.
unfoldable pub insert : (ℕ → ℕ) → ℕ → FibonacciHeap → FibonacciHeap
unfolding put
insert key x h = record {
  ring = put key (new_node x) h.ring;
  number_of_nodes = h.number_of_nodes + 1;
}

-- The list of children with one more, which stands to the right of the first.
unfoldable pub add_child : ℕ → Forest → Forest → Forest
add_child y grand nil = add y false grand nil
add_child y grand (add c mk ch rest) = add c mk ch (add y false grand rest)

-- `makeChild`.
unfoldable pub make_child : FibonacciHeapNode → FibonacciHeapNode → FibonacciHeapNode
unfolding add_child
make_child y x = record x { children = add_child y.node_object y.children x.children }

-- Of two nodes of one degree, that with the less key becomes a child of the other.
unfoldable pub link : (ℕ → ℕ) → FibonacciHeapNode → FibonacciHeapNode → FibonacciHeapNode
unfolding make_child
link key x y =
    if ltb (key x.node_object) (key y.node_object) then make_child x y else make_child y x

-- The inner loop of `degreewiseMerge` over the degree table, from the entry of the node's degree.
-- `none` is a degree behind the end of the table.
unfoldable pub carry :
    (ℕ → ℕ)
    → FibonacciHeapNode
    → List (Option FibonacciHeapNode)
    → Option (List (Option FibonacciHeapNode))
unfolding link
carry key x [] = none
carry key x (none ∷ t) = some (some x ∷ t)
carry key x (some y ∷ t) = carry key (link key x y) t >>= λ t'. some (none ∷ t')

unfoldable pub place :
    (ℕ → ℕ)
    → ℕ
    → FibonacciHeapNode
    → List (Option FibonacciHeapNode)
    → Option (List (Option FibonacciHeapNode))
unfolding carry
place key zero x t = carry key x t
place key (suc d) x [] = none
place key (suc d) x (e ∷ t) = place key d x t >>= λ t'. some (e ∷ t')

-- The loop over the roots.
unfoldable pub merge_roots :
    (ℕ → ℕ) → Forest → List (Option FibonacciHeapNode) → Option (List (Option FibonacciHeapNode))
unfolding place degree
merge_roots key nil t = some t
merge_roots key (add x mk ch rest) t =
    place key (degree ch) (record { node_object = x; mark = mk; children = ch }) t >>= λ t'.
    merge_roots key rest t'

-- The loop that makes the list of roots anew from the degree table.
unfoldable pub combine : (ℕ → ℕ) → List (Option FibonacciHeapNode) → Forest → Forest
unfolding put
combine key [] ring = ring
combine key (none ∷ t) ring = combine key t ring
combine key (some y ∷ t) ring = combine key t (put key y ring)

unfoldable pub empty_table : ℕ → List (Option FibonacciHeapNode)
empty_table zero = []
empty_table (suc n) = none ∷ empty_table n

-- `sizeofDegreeTable`.
abbrev pub sizeof_degree_table : ℕ
sizeof_degree_table = 45

-- `degreewiseMerge`.
unfoldable pub degreewise_merge : (ℕ → ℕ) → Forest → Option Forest
unfolding merge_roots combine empty_table
degreewise_merge key ring =
    merge_roots key ring (empty_table sizeof_degree_table) >>= λ t. some (combine key t nil)

-- The children of `maxNode` put to its right one after the other, before the other roots.
unfoldable pub release : Forest → Forest → Forest
release nil rest = rest
release (add x mk ch more) rest = release more (add x mk ch rest)

-- `removeMax`; `none` is the null pointer of an empty heap, which every caller dereferences.
unfoldable pub remove_max : (ℕ → ℕ) → FibonacciHeap → Option (ℕ × FibonacciHeap)
unfolding degreewise_merge release
remove_max key h = elim h.ring [
  | nil ↦ none
  | add z mk ch rest ↦ degreewise_merge key (release ch rest) >>= λ ring.
      some (z, record { ring = ring; number_of_nodes = h.number_of_nodes - 1 })
]

-- What becomes of a list of nodes under `increaseKey` of an object: it is not in it; it is and
-- nothing is cut; or nodes are cut, the last one first, and the list's parent has lost a node or not.
pub data Raised : Type 0 where
  absent : Raised
  kept : Raised
  parted : Forest → Forest → Bool → Raised

-- The node is at the head: it is cut if it has a parent whose key is less.
unfoldable pub raise_here : (ℕ → ℕ) → ℕ → Forest → Forest → Option ℕ → Raised
raise_here key x ch rest none = kept
raise_here key x ch rest (some p) =
    if ltb (key p) (key x) then parted rest (add x false ch nil) true else kept

abbrev pub has_parent : Option ℕ → Bool
has_parent none = false
has_parent (some p) = true

-- A node that has lost a child (`cascadingCut`): it is marked, or cut if it was, unless it is a root.
unfoldable pub cascading_cut : ℕ → Bool → Forest → Forest → Forest → Option ℕ → Raised
cascading_cut y mk ch rest cuts none = parted (add y mk ch rest) cuts false
cascading_cut y true ch rest cuts (some p) = parted rest (add y false ch cuts) true
cascading_cut y false ch rest cuts (some p) = parted (add y true ch rest) cuts false

-- Behind a node whose list of children has not the object, and above one that has.
unfoldable pub behind : ℕ → Bool → Forest → Raised → Raised
behind y mk ch absent = absent
behind y mk ch kept = kept
behind y mk ch (parted rest cuts lost) = parted (add y mk ch rest) cuts lost

unfoldable pub above : ℕ → Bool → Forest → Option ℕ → Raised → Raised → Raised
unfolding cascading_cut
above y mk rest p later absent = later
above y mk rest p later kept = kept
above y mk rest p later (parted ch cuts true) = cascading_cut y mk ch rest cuts p
above y mk rest p later (parted ch cuts false) = parted (add y mk ch rest) cuts false

-- The search for the object in a list of nodes with this parent, and `cut` and `cascadingCut`.
unfoldable pub raise : (ℕ → ℕ) → ℕ → Option ℕ → Forest → Raised
unfolding raise_here behind above
raise key x p nil = absent
raise key x p (add y mk ch rest) =
    let inside = raise key x (some y) ch in
    let later = raise key x p rest in
    if y == x then raise_here key y ch rest p else above y mk rest p (behind y mk ch later) inside

-- The cut nodes stand to the right of `maxNode`.
unfoldable pub put_cuts : Forest → Forest → Forest
unfolding join
put_cuts cuts nil = cuts
put_cuts cuts (add m mk ch rest) = add m mk ch (join cuts rest)

unfoldable pub after_raise : Forest → Raised → Option Forest
unfolding put_cuts
after_raise ring absent = none
after_raise ring kept = some ring
after_raise ring (parted ring' cuts lost) = some (put_cuts cuts ring')

-- The list of roots read from the root that holds the object, if there is one.
unfoldable pub read_from : ℕ → Forest → Forest → Forest
unfolding join
read_from x front nil = front
read_from x front (add y mk ch rest) =
    if y == x
    then add y mk ch (join rest front)
    else read_from x (join front (add y mk ch nil)) rest

unfoldable pub max_key_below : (ℕ → ℕ) → ℕ → Forest → Bool
max_key_below key x nil = false
max_key_below key x (add m mk ch rest) = ltb (key m) (key x)

-- The last test of `increaseKey`.
unfoldable pub new_max : (ℕ → ℕ) → ℕ → Forest → Forest
unfolding max_key_below read_from
new_max key x ring = if max_key_below key x ring then read_from x nil ring else ring

-- `updateKey` and `increaseKey`, once `setKey` has made `key` what it is; `none` is an object that is
-- not in the heap.
unfoldable pub increase_key : (ℕ → ℕ) → ℕ → FibonacciHeap → Option FibonacciHeap
unfolding raise after_raise new_max
increase_key key x h = after_raise h.ring (raise key x none h.ring) >>= λ ring.
    some (record h { ring = new_max key x ring })
