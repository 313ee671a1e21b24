-- ===== src/Preferred/Arrays.antt =====
-- The array of nodes and the maps of `rsgComputePreferredPathID`
-- (model/lltc/lltc-resilient-routes-subgraph.cpp).
use drtp.Base.{
  ℕ, zero, suc, ◌≡◌, refl, sym, ap, ◌∙◌, inl, inr, true, false, Option, none, some, List, [], ◌∷◌,
  arith, ◌==◌, Bool-cases,
}
use drtp.Base.Seqs.{elem, Distinct}
use drtp.Preferred.{
  Double, RsgNode, RsgFiboNode, fibo_at, set_ratio, rsg_get_fibo_rr_node_by_id,
  rsg_get_sub_graph_node_by_id, fibo_nodes_of, node_ids_of,
}

unfoldable pub nth : ℕ → List ℕ → Option ℕ
nth k [] = none
nth zero (x ∷ xs) = some x
nth (suc k) (x ∷ xs) = nth k xs

pub elem-nth : (xs : List ℕ) (k id : ℕ) → nth k xs ≡ some id → elem id xs ≡ true
unfolding nth elem
elem-nth [] k id e = absurd (let g : ⊥ = cc in g)
elem-nth (x ∷ xs) zero id e = let same : x ≡ id = cc in ground (arith, same)
elem-nth (x ∷ xs) (suc k) id e = ground (arith, elem-nth xs k id e)

-- In a list without repetition an entry has one place.
pub nth-Distinct :
    (xs : List ℕ) (j k id : ℕ) → Distinct xs → nth j xs ≡ some id → nth k xs ≡ some id → j ≡ k
unfolding nth
nth-Distinct [] j k id d e f = absurd (let g : ⊥ = cc in g)
nth-Distinct (x ∷ xs) zero zero id d e f = refl
nth-Distinct (x ∷ xs) zero (suc k) id d e f =
    let same : x ≡ id = cc in
    let inside = elem-nth xs k id f in
    absurd
      (let h : elem id xs ≡ false = ap (λ z. elem z xs) (sym same) ∙ d.0 in let g : ⊥ = cc in g)
nth-Distinct (x ∷ xs) (suc j) zero id d e f =
    let same : x ≡ id = cc in
    let inside = elem-nth xs j id e in
    absurd
      (let h : elem id xs ≡ false = ap (λ z. elem z xs) (sym same) ∙ d.0 in let g : ⊥ = cc in g)
nth-Distinct (x ∷ xs) (suc j) (suc k) id d e f = ap suc (nth-Distinct xs j k id d.1 e f)

module _ {W : Type 0} (fl : Double W) where
  abbrev pub id_in : Option (RsgFiboNode W) → Option ℕ
  id_in none = none
  id_in (some f) = some f.node_id

  abbrev pub with_ratio : W → Option (RsgFiboNode W) → Option (RsgFiboNode W)
  with_ratio w none = none
  with_ratio w (some f) = some (record f { succ_ratio_in_log = w })

  pub fibo_at-set_ratio_same :
      (fs : List (RsgFiboNode W)) (v : ℕ) (w : W)
      → fibo_at fl v (set_ratio fl v w fs) ≡ with_ratio w (fibo_at fl v fs)
  unfolding fibo_at set_ratio
  fibo_at-set_ratio_same [] v w = refl
  fibo_at-set_ratio_same (f ∷ fs) zero w = refl
  fibo_at-set_ratio_same (f ∷ fs) (suc v) w = fibo_at-set_ratio_same fs v w

  pub fibo_at-set_ratio_other :
      (fs : List (RsgFiboNode W)) (v k : ℕ) (w : W)
      → (k == v) ≡ false
      → fibo_at fl k (set_ratio fl v w fs) ≡ fibo_at fl k fs
  unfolding fibo_at set_ratio
  fibo_at-set_ratio_other [] v k w e = refl
  fibo_at-set_ratio_other (f ∷ fs) zero zero w e = absurd (ground (arith, e))
  fibo_at-set_ratio_other (f ∷ fs) zero (suc k) w e = refl
  fibo_at-set_ratio_other (f ∷ fs) (suc v) zero w e = refl
  fibo_at-set_ratio_other (f ∷ fs) (suc v) (suc k) w e =
      fibo_at-set_ratio_other fs v k w (ground (arith, e))

  pub id_in-set_ratio :
      (fs : List (RsgFiboNode W)) (v k : ℕ) (w : W)
      → id_in (fibo_at fl k (set_ratio fl v w fs)) ≡ id_in (fibo_at fl k fs)
  id_in-set_ratio fs v k w = elim (Bool-cases (k == v)) [
    | inl e ↦
        let same : k ≡ v = ground arith in
        rw (same, fibo_at-set_ratio_same fs v w) (kept (fibo_at fl v fs))
    | inr e ↦ rw (fibo_at-set_ratio_other fs v k w e) refl
  ]
    where
      kept : (o : Option (RsgFiboNode W)) → id_in (with_ratio w o) ≡ id_in o
      kept none = refl
      kept (some f) = refl

  -- The node that has the ID, at its first place.
  pub found_by_id :
      (id : ℕ) (fs : List (RsgFiboNode W)) (ids : List ℕ)
      → ((k : ℕ) → id_in (fibo_at fl k fs) ≡ nth k ids)
      → elem id ids ≡ true
      → (v : ℕ) × (f : RsgFiboNode W) × (rsg_get_fibo_rr_node_by_id fl id fs ≡ some v)
        × (fibo_at fl v fs ≡ some f)
        × (f.node_id ≡ id)
  unfolding rsg_get_fibo_rr_node_by_id fibo_at nth elem
  found_by_id id fs [] named e = absurd (let g : ⊥ = cc in g)
  found_by_id id [] (x ∷ ids) named e = absurd (let h = named 0 in let g : ⊥ = cc in g)
  found_by_id id (f ∷ fs) (x ∷ ids) named e =
      let same : f.node_id ≡ x = (let h = named 0 in cc) in
      elim (Bool-cases (f.node_id == id)) [
        | inl g ↦ (0, f, rw g refl, refl, ground arith)
        | inr g ↦
            let (v, f', found, at, named_) =
              found_by_id id fs ids (λ k. named (suc k)) (ground (arith, e, g, same)) in
            (suc v, f', rw (g, found) refl, at, named_)
      ]

  pub sub_graph_node_found :
      (id : ℕ) (nodes : List (RsgNode W))
      → elem id (node_ids_of fl nodes) ≡ true
      → (node : RsgNode W) × (rsg_get_sub_graph_node_by_id fl id nodes ≡ some node)
  unfolding rsg_get_sub_graph_node_by_id node_ids_of elem
  sub_graph_node_found id [] e = absurd (let g : ⊥ = cc in g)
  sub_graph_node_found id (node ∷ nodes) e = elim (Bool-cases (node.node_id == id)) [
    | inl g ↦ (node, rw g refl)
    | inr g ↦
        let (node', found) = sub_graph_node_found id nodes (ground (arith, e, g)) in
        (node', rw g found)
  ]

  pub start-named :
      (src k : ℕ) (nodes : List (RsgNode W))
      → id_in (fibo_at fl k (fibo_nodes_of fl src nodes)) ≡ nth k (node_ids_of fl nodes)
  unfolding fibo_at fibo_nodes_of node_ids_of nth
  start-named src k [] = refl
  start-named src zero (node ∷ nodes) = refl
  start-named src (suc k) (node ∷ nodes) = start-named src k nodes
