-- ===== src/Preferred/Starting.antt =====
-- The state from which the search of `rsgComputePreferredPathID`
-- (model/lltc/lltc-resilient-routes-subgraph.cpp) starts.
use drtp.Base.{
  ℕ, zero, suc, ◌+◌, ◌<◌, ◌≡◌, refl, sym, ap, ◌∙◌, ◌⊎◌, inl, inr, Bool, true, false, ◌||◌, List, [],
  ◌∷◌, arith, ◌==◌, ltb, Bool-cases, if◌then◌else◌,
}
use drtp.Base.Seqs.{length, elem}
use drtp.Base.Maps.{assign}
use drtp.Fs.{uint_max}
use drtp.FibonacciHeap.{FibonacciHeap}
use drtp.FibonacciHeap.Merge.{int_limit}
use drtp.FibonacciHeap.Queue.{empty-IsValid, holds, IsValid}
use drtp.Preferred.{
  Double, RsgNode, Rsg, RsgPrevNodeInfo, info_of, fibo_at, get_key, start, fibo_nodes_of, no_infos,
  insert_from, node_ids_of,
}
use drtp.Preferred.Arrays.{nth}
use drtp.FibonacciHeap.{empty, insert}
use drtp.FibonacciHeap.Content.{count}
use drtp.FibonacciHeap.Queue.{empty-IsValid, insert_lem}
use drtp.Preferred.Arrays.{start-named}
use drtp.Preferred.Ratios.{IsLog, IsDouble}
use drtp.Preferred.Invariant.{in_set, IsTop, IsSearch, info_of-assign}
use drtp.Preferred.Searching.{IsRsg}

ones_below : ℕ → ℕ → ℕ
ones_below n z = if ltb z n then 1 else 0

insert_from-IsValid :
    {W : Type 0} (fl : Double W) (key : ℕ → ℕ) (i : ℕ) (nodes : List (RsgNode W))
    (h : FibonacciHeap)
    → IsValid key h
    → ((z : ℕ) → holds z h ≡ ones_below i z)
    → h.number_of_nodes ≡ i
    → i + length nodes < int_limit
    → IsValid key (insert_from fl key i nodes h)
      × ((z : ℕ) → holds z (insert_from fl key i nodes h) ≡ ones_below (i + length nodes) z)
      × ((insert_from fl key i nodes h).number_of_nodes ≡ i + length nodes)
unfolding insert_from ones_below
insert_from-IsValid fl key i [] h v c n few = (v, (λ z. ground (arith, c z)), omega (arith, n))
insert_from-IsValid fl key i (node ∷ nodes) h v c n few =
    let (v', c') = insert_lem key i h v (ground (arith, c i)) (omega (arith, n, few)) in
    let (valid, counts, size) =
      insert_from-IsValid fl key (suc i) nodes (insert key i h) v' (λ z. ground (arith, c z, c' z))
        (unfold insert in omega (arith, n)) (omega (arith, few)) in
    (valid, (λ z. ground (arith, counts z)), omega (arith, size))

in_set-nth :
    (k : ℕ) (xs ids : List ℕ)
    → ((id : ℕ) → elem id xs ≡ true → elem id ids ≡ true)
    → in_set ids (nth k xs) ≡ ones_below (length xs) k
unfolding nth elem ones_below
in_set-nth k [] ids h = ground arith
in_set-nth zero (x ∷ xs) ids h = ground (arith, h x)
in_set-nth (suc k) (x ∷ xs) ids h =
    in_set-nth k xs ids (λ id e. h id (ground (arith, e))) ∙ ground arith

module _ {W : Type 0} (fl : Double W) (laws : IsDouble fl) where
  length-node_ids : (nodes : List (RsgNode W)) → length (node_ids_of fl nodes) ≡ length nodes
  unfolding node_ids_of
  length-node_ids [] = refl
  length-node_ids (node ∷ nodes) = omega (arith, length-node_ids nodes)

  first_top : (b : Bool) → IsLog fl 0 (if b then fl.nought else fl.minus_infinity)
  first_top true = laws.nought_log
  first_top false = laws.infinity_log

  start-IsTop :
      (src k : ℕ) (nodes : List (RsgNode W))
      → IsTop fl 0 (fibo_at fl k (fibo_nodes_of fl src nodes))
  unfolding fibo_at fibo_nodes_of
  start-IsTop src k [] = tt
  start-IsTop src zero (node ∷ nodes) = first_top (node.node_id == src)
  start-IsTop src (suc k) (node ∷ nodes) = start-IsTop src k nodes

  no_info :
      (nodes : List (RsgNode W)) (m : List (ℕ × RsgPrevNodeInfo)) (id : ℕ)
      → ((info_of m id).node_id ≡ uint_max) ⊎ (elem id (node_ids_of fl nodes) ≡ true)
      → (info_of (no_infos fl nodes m) id).node_id ≡ uint_max
  unfolding no_infos node_ids_of elem
  no_info [] m id (inl e) = e
  no_info [] m id (inr e) = absurd (let g : ⊥ = cc in g)
  no_info (node ∷ nodes) m id h =
      no_info nodes (assign node.node_id nothing m) id (elim (Bool-cases (node.node_id == id)) [
        | inl e ↦ inl (rw (info_of-assign fl node.node_id id nothing m, e) refl)
        | inr e ↦ rest e h
      ])
    where
      nothing : RsgPrevNodeInfo
      nothing = record { node_id = uint_max; vir_link_id = 0 }

      rest :
          (node.node_id == id) ≡ false
          → ((info_of m id).node_id ≡ uint_max)
            ⊎ (((node.node_id == id) || elem id (node_ids_of fl nodes)) ≡ true)
          → ((info_of (assign node.node_id nothing m) id).node_id ≡ uint_max)
            ⊎ (elem id (node_ids_of fl nodes) ≡ true)
      rest e (inl f) = inl (rw (info_of-assign fl node.node_id id nothing m, e) f)
      rest e (inr f) = inr (ground (arith, e, f))

  pub start-IsSearch :
      (rsg : Rsg W)
      → IsRsg fl rsg
      → IsSearch fl rsg [] (start fl rsg) × ((start fl rsg).fh.number_of_nodes ≡ length rsg.nodes)
  unfolding start
  start-IsSearch rsg w =
      let fibo = fibo_nodes_of fl rsg.src_node_id rsg.nodes in
      let ids = node_ids_of fl rsg.nodes in
      let (valid, counts, size) =
        insert_from-IsValid fl (get_key fl fibo) 0 rsg.nodes empty (empty-IsValid (get_key fl fibo))
          (λ z. unfold ones_below count in ground arith) refl (omega (arith, w.few)) in
      (
        record {
          valid = valid;
          named = λ k. start-named fl rsg.src_node_id k rsg.nodes;
          held = λ k.
              counts k
              ∙ (ap (λ n. ones_below n k) (omega (arith, length-node_ids rsg.nodes))
                  ∙ sym (in_set-nth k ids ids (λ id e. e)));
          tops = λ k. start-IsTop rsg.src_node_id k rsg.nodes;
          apart = λ id at. at ∙ (unfold elem in refl);
          inside = λ id at. at;
          chained = tt;
          behind = λ id at free. inl (no_info rsg.nodes [] id (inr at));
        },
        omega (arith, size),
      )
