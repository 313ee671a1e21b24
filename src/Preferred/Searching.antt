-- ===== src/Preferred/Searching.antt =====
-- The search of `rsgComputePreferredPathID` (model/lltc/lltc-resilient-routes-subgraph.cpp) comes to
-- its end with every node taken out of the heap.
use drtp.Base.{
  ◌≤◌, ℕ, zero, suc, ◌+◌, ◌<◌, ◌≡◌, refl, sym, ap, ◌∙◌, ◌⊎◌, inl, inr, Bool, true, false, Option,
  none, some, List, [], ◌∷◌, arith, ◌==◌, ltb, Bool-cases, Option-cases, if◌then◌else◌, ◌>>=◌,
}
use drtp.Base.Seqs.{elem-remove, All, length, elem, remove, Distinct}
use mathlib.Core.Path.{subst}
use drtp.FibonacciHeap.{FibonacciHeap}
use drtp.FibonacciHeap.Queue.{holds}
use drtp.Preferred.{
  Double, RsgVirLink, RsgNode, Rsg, RsgFiboNode, Search, info_of, fibo_at, get_key,
  rsg_get_sub_graph_node_by_id, visit, search, node_ids_of,
}
use drtp.Preferred.Arrays.{nth, id_in}
use drtp.FibonacciHeap.Queue.{Removed, remove_max_lem}
use drtp.Preferred.Arrays.{elem-nth, nth-Distinct, sub_graph_node_found}
use drtp.Preferred.Ratios.{most_nodes, IsRatio, IsLog, IsDouble}
use drtp.Preferred.Invariant.{in_set, IsTop, IsTop-suc, IsFrom, IsSearch}
use drtp.Preferred.Round.{relax_all-Goes}

-- A subgraph of at most `most_nodes` nodes with IDs of their own, whose ratios are at most one; the destination is
-- one of its nodes, and its primary path is not empty.
pub record IsRsg {W : Type 0} (fl : Double W) (rsg : Rsg W) : Type 0 where
  pub distinct : Distinct (node_ids_of fl rsg.nodes)
  pub few : length rsg.nodes ≤ most_nodes
  pub tops :
      All
        (λ (node : RsgNode W).
          All (λ (l : RsgVirLink W). IsRatio fl l.succ_ratio_in_log) node.egress_vir_links)
        rsg.nodes
  pub ends : elem rsg.dst_node_id (node_ids_of fl rsg.nodes) ≡ true
  pub path : 0 < length rsg.states.rsg_compacted_rr.prim_path.node_ids

-- Whether an ID is at a place.
id_is : ℕ → Option ℕ → Bool
id_is id none = false
id_is id (some k) = id == k

id_is-some : (id : ℕ) (o : Option ℕ) → id_is id o ≡ true → o ≡ some id
unfolding id_is
id_is-some id none e = absurd (let g : ⊥ = cc in g)
id_is-some id (some k) e = let same : k ≡ id = ground arith in ap (λ z. some z) same

module _ {W : Type 0} (fl : Double W) (laws : IsDouble fl) (rsg : Rsg W) where
  tops_of :
      (id : ℕ) (nodes : List (RsgNode W)) (node : RsgNode W)
      → All
          (λ (node : RsgNode W).
            All (λ (l : RsgVirLink W). IsRatio fl l.succ_ratio_in_log) node.egress_vir_links)
          nodes
      → rsg_get_sub_graph_node_by_id fl id nodes ≡ some node
      → All (λ (l : RsgVirLink W). IsRatio fl l.succ_ratio_in_log) node.egress_vir_links
  unfolding rsg_get_sub_graph_node_by_id
  tops_of id [] node t e = absurd (let g : ⊥ = cc in g)
  tops_of id (n ∷ nodes) node (t, ts) e = elim (Bool-cases (n.node_id == id)) [
    | inl f ↦ let e' : some n ≡ some node = rw f at e in let same : node ≡ n = cc in rw same t
    | inr f ↦ tops_of id nodes node ts (rw f at e)
  ]

  -- The node that the heap gives is one that it holds.
  taken :
      (k : ℕ) (order : List ℕ) (s : Search W)
      → IsSearch fl rsg order s
      → 0 < holds k s.fh
      → (u : RsgFiboNode W) × (fibo_at fl k s.fibo_nodes ≡ some u)
        × (nth k (node_ids_of fl rsg.nodes) ≡ some u.node_id)
        × (elem u.node_id s.nodes_in_fh ≡ true)
  taken k order s i h = elim (Option-cases (fibo_at fl k s.fibo_nodes)) [
    | inl e ↦
        let free : nth k (node_ids_of fl rsg.nodes) ≡ none = sym (i.named k) ∙ ap (id_in fl) e in
        let no : holds k s.fh ≡ 0 = i.held k ∙ ap (in_set s.nodes_in_fh) free in
        absurd (omega (arith, no, h))
    | inr (u, e) ↦
        let here : nth k (node_ids_of fl rsg.nodes) ≡ some u.node_id =
          sym (i.named k) ∙ ap (id_in fl) e in
        let one : holds k s.fh ≡ in_set s.nodes_in_fh (some u.node_id) =
          i.held k ∙ ap (in_set s.nodes_in_fh) here in
        (u, e, here, ground (arith, one, h))
  ]

  -- The number of nodes with the ID at a place, once one ID is taken out of the set.
  in_set-remove :
      (ids : List ℕ) (id : ℕ) (o : Option ℕ)
      → in_set (remove id ids) o ≡ (if id_is id o then 0 else in_set ids o)
  unfolding id_is
  in_set-remove ids id none = refl
  in_set-remove ids id (some k) = ground (arith, elem-remove id k ids)

  -- The state when a node has just been taken out.
  Removed-IsSearch :
      (k : ℕ) (order : List ℕ) (s : Search W) (fh' : FibonacciHeap) (id : ℕ)
      → IsRsg fl rsg
      → IsSearch fl rsg order s
      → Removed (get_key fl s.fibo_nodes) s.fh k fh'
      → nth k (node_ids_of fl rsg.nodes) ≡ some id
      → elem id s.nodes_in_fh ≡ true
      → IsSearch fl rsg (id ∷ order) (record s { fh = fh'; nodes_in_fh = remove id s.nodes_in_fh })
  unfolding elem
  Removed-IsSearch k order s fh' id w i r here there =
      let is_node = i.inside id there in
      let free : elem id order ≡ false = ground (arith, i.apart id is_node, there) in
      record {
        valid = r.valid;
        named = i.named;
        held = λ j. left_in j (Bool-cases (k == j));
        tops = λ k. IsTop-suc fl (length order) (fibo_at fl k s.fibo_nodes) (i.tops k);
        apart = λ z at. ground (arith, elem-remove id z s.nodes_in_fh, i.apart z at);
        inside = λ z at. i.inside z (ground (arith, elem-remove id z s.nodes_in_fh, at));
        chained = (i.behind id is_node free, i.chained);
        behind = λ z at new. later z (i.behind z at (ground (arith, new)));
      }
    where
      left_in :
          (j : ℕ)
          → ((k == j) ≡ true) ⊎ ((k == j) ≡ false)
          → holds j fh' ≡ in_set (remove id s.nodes_in_fh) (nth j (node_ids_of fl rsg.nodes))
      left_in j (inl e) =
          let same : j ≡ k = ground arith in
          let at : nth j (node_ids_of fl rsg.nodes) ≡ some id =
            ap (λ z. nth z (node_ids_of fl rsg.nodes)) same ∙ here in
          let gone : holds j fh' ≡ 0 = ground (arith, r.others j, i.valid.once j, e) in
          gone ∙ (rw at (ground (arith, elem-remove id id s.nodes_in_fh)))
      left_in j (inr e) =
          let kept : holds j fh' ≡ in_set s.nodes_in_fh (nth j (node_ids_of fl rsg.nodes)) =
            ground (arith, r.others j, i.held j, e) in
          kept ∙ elim (Bool-cases (id_is id (nth j (node_ids_of fl rsg.nodes)))) [
            | inl f ↦
                let same : j ≡ k =
                  nth-Distinct (node_ids_of fl rsg.nodes) j k id w.distinct
                    (id_is-some id (nth j (node_ids_of fl rsg.nodes)) f) here in
                absurd (ground (arith, e, same))
            | inr f ↦ rw (in_set-remove s.nodes_in_fh id (nth j (node_ids_of fl rsg.nodes)), f) refl
          ]

      later :
          (z : ℕ)
          → IsFrom fl rsg order z (info_of s.rr_node_info z)
          → IsFrom fl rsg (id ∷ order) z (info_of s.rr_node_info z)
      later z (inl e) = inl e
      later z (inr (e, node, found, live)) = inr (ground (arith, e), node, found, live)

  visit-Goes :
      (order : List ℕ) (comps : List (ℕ × ℕ)) (s : Search W)
      → IsRsg fl rsg
      → IsSearch fl rsg order s
      → 0 < s.fh.number_of_nodes
      → length order < most_nodes
      → (s' : Search W) × (id : ℕ) × (visit fl rsg comps s ≡ some s')
        × IsSearch fl rsg (id ∷ order) s'
        × (s.fh.number_of_nodes ≡ s'.fh.number_of_nodes + 1)
  unfolding visit
  visit-Goes order comps s w i some_left room =
      let (k, fh', returned, r) = remove_max_lem (get_key fl s.fibo_nodes) s.fh i.valid some_left in
      let (u, at, here, there) = taken k order s i r.held in
      let top : IsLog fl (length order) u.succ_ratio_in_log =
        subst (IsTop fl (length order)) at (i.tops k) in
      let (node, found) =
        sub_graph_node_found fl u.node_id rsg.nodes
          (elem-nth (node_ids_of fl rsg.nodes) k u.node_id here) in
      let s1 : Search W = record s { fh = fh'; nodes_in_fh = remove u.node_id s.nodes_in_fh } in
      let (s', returned', i', size) =
        relax_all-Goes fl laws rsg u order room node found comps node.egress_vir_links s1
          (Removed-IsSearch k order s fh' u.node_id w i r here there) top
          (tops_of u.node_id rsg.nodes node w.tops found) (λ id vid h. h) in
      (s', u.node_id, rw (returned, ◌>>=◌, at, found) returned', i', omega (arith, size, r.fewer))

  -- With as much fuel as nodes the search comes to its end, every node taken out.
  pub search-Goes :
      (n : ℕ) (order : List ℕ) (comps : List (ℕ × ℕ)) (s : Search W)
      → IsRsg fl rsg
      → IsSearch fl rsg order s
      → s.fh.number_of_nodes ≡ n
      → length order + n ≤ most_nodes
      → (s' : Search W) × (order' : List ℕ) × (search fl n rsg comps s ≡ some s')
        × IsSearch fl rsg order' s'
        × (length order' ≡ length order + n)
  unfolding search
  search-Goes zero order comps s w i e room =
      let none_left : ltb 0 s.fh.number_of_nodes ≡ false = ground (arith, e) in
      (s, order, rw none_left refl, i, omega arith)
  search-Goes (suc n) order comps s w i e room =
      let some_left : ltb 0 s.fh.number_of_nodes ≡ true = ground (arith, e) in
      let (s', id, returned, i', size) =
        visit-Goes order comps s w i (omega (arith, e)) (omega (arith, room)) in
      let (s'', order', returned', i'', all) =
        search-Goes n (id ∷ order) comps s' w i' (omega (arith, size, e)) (omega (arith, room)) in
      (s'', order', rw (some_left, search, returned) returned', i'', omega (arith, all))
