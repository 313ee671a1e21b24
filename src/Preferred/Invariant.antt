-- ===== src/Preferred/Invariant.antt =====
-- What the search of `rsgComputePreferredPathID` (model/lltc/lltc-resilient-routes-subgraph.cpp) keeps
-- true, and that relaxing a link keeps it.
use drtp.Base.{
  ℕ, suc, ◌≤◌, ◌≡◌, refl, ◌⊎◌, inl, inr, true, false, not, Option, none, some, List, [], ◌∷◌, arith,
  ◌==◌, Bool-cases, if◌then◌else◌,
}
use drtp.Base.Seqs.{elem, length}
use drtp.Base.Maps.{assign, find-assign}
use drtp.Fs.{uint_max}
use drtp.FibonacciHeap.Queue.{holds, IsValid}
use drtp.FibonacciHeap.NewMax.{IsIncrease}
use drtp.Subgraph.{status_of}
use drtp.Preferred.{
  Double, RsgVirLink, RsgNode, Rsg, RsgFiboNode, RsgPrevNodeInfo, Search, info_of, fibo_at, get_key,
  set_ratio, rsg_get_sub_graph_node_by_id, vir_link_id_of, node_ids_of,
}
use drtp.Preferred.Ratios.{IsLog, IsLog-suc}
use drtp.Preferred.Arrays.{nth, id_in, with_ratio, fibo_at-set_ratio_same, fibo_at-set_ratio_other}

-- The number of nodes in the heap that have the ID at a place.
abbrev pub in_set : List ℕ → Option ℕ → ℕ
in_set ids none = 0
in_set ids (some id) = if elem id ids then 1 else 0

module _ {W : Type 0} (fl : Double W) where
  abbrev pub IsTop : ℕ → Option (RsgFiboNode W) → Type 0
  IsTop n none = Unit {0}
  IsTop n (some f) = IsLog fl n f.succ_ratio_in_log

  pub IsTop-suc : (n : ℕ) (o : Option (RsgFiboNode W)) → IsTop n o → IsTop (suc n) o
  IsTop-suc n none t = tt
  IsTop-suc n (some f) t = IsLog-suc fl n f.succ_ratio_in_log t

  -- A link that has not failed, to this node, remembered by this ID.
  abbrev pub IsLive : List (ℕ × ℕ) → ℕ → ℕ → RsgVirLink W → Type 0
  IsLive states id vid l =
      ((status_of l.link_id states == 1) ≡ false)
      × (l.node_egress ≡ id)
      × (vid ≡ vir_link_id_of fl l)

  abbrev pub HasLive : List (ℕ × ℕ) → ℕ → ℕ → List (RsgVirLink W) → Type 0
  HasLive states id vid [] = ⊥
  HasLive states id vid (l ∷ ls) = IsLive states id vid l ⊎ HasLive states id vid ls

  -- An entry of `rrNodeInfo`: none yet, or by a live link of a node that was taken out before.
  abbrev pub IsFrom : Rsg W → List ℕ → ℕ → RsgPrevNodeInfo → Type 0
  IsFrom rsg order id info =
      (info.node_id ≡ uint_max)
      ⊎ ((elem info.node_id order ≡ true)
          × (node : RsgNode W) × (rsg_get_sub_graph_node_by_id fl info.node_id rsg.nodes
              ≡ some node)
          × HasLive rsg.states.link_status_map id info.vir_link_id node.egress_vir_links)

  -- `order` are the nodes that were taken out of the heap, the last one first.
  abbrev pub IsChained : Rsg W → List (ℕ × RsgPrevNodeInfo) → List ℕ → Type 0
  IsChained rsg m [] = Unit {0}
  IsChained rsg m (id ∷ older) = IsFrom rsg older id (info_of m id) × IsChained rsg m older

  pub record IsSearch (rsg : Rsg W) (order : List ℕ) (s : Search W) : Type 0 where
    pub valid : IsValid (get_key fl s.fibo_nodes) s.fh
    pub named : (k : ℕ) → id_in fl (fibo_at fl k s.fibo_nodes) ≡ nth k (node_ids_of fl rsg.nodes)
    pub held : (k : ℕ) → holds k s.fh ≡ in_set s.nodes_in_fh (nth k (node_ids_of fl rsg.nodes))
    pub tops : (k : ℕ) → IsTop (length order) (fibo_at fl k s.fibo_nodes)
    pub apart :
        (id : ℕ)
        → elem id (node_ids_of fl rsg.nodes) ≡ true
        → elem id s.nodes_in_fh ≡ not (elem id order)
    pub inside : (id : ℕ) → elem id s.nodes_in_fh ≡ true → elem id (node_ids_of fl rsg.nodes) ≡ true
    pub chained : IsChained rsg s.rr_node_info order
    pub behind :
        (id : ℕ)
        → elem id (node_ids_of fl rsg.nodes) ≡ true
        → elem id order ≡ false
        → IsFrom rsg order id (info_of s.rr_node_info id)

  pub info_of-assign :
      (id k : ℕ) (info : RsgPrevNodeInfo) (m : List (ℕ × RsgPrevNodeInfo))
      → info_of (assign id info m) k ≡ (if id == k then info else info_of m k)
  info_of-assign id k info m = ground (arith, find-assign id k info m)

  pub IsChained-assign :
      (rsg : Rsg W) (id : ℕ) (info : RsgPrevNodeInfo) (m : List (ℕ × RsgPrevNodeInfo))
      (order : List ℕ)
      → elem id order ≡ false
      → IsChained rsg m order
      → IsChained rsg (assign id info m) order
  unfolding elem
  IsChained-assign rsg id info m [] e c = tt
  IsChained-assign rsg id info m (w ∷ older) e (c, cs) =
      let other : (id == w) ≡ false = ground (arith, e) in
      (
        rw (info_of-assign id w info m, other) c,
        IsChained-assign rsg id info m older (ground (arith, e)) cs,
      )

  key_in-with_ratio :
      (fs : List (RsgFiboNode W)) (v : ℕ) (w : W) (f : RsgFiboNode W)
      → fibo_at fl v fs ≡ some f
      → get_key fl (set_ratio fl v w fs) v ≡ fl.key w
  unfolding get_key
  key_in-with_ratio fs v w f at = rw (fibo_at-set_ratio_same fl fs v w, at) refl

  -- The new ratio is an increase of the key.
  pub ratio-IsIncrease :
      (fs : List (RsgFiboNode W)) (v : ℕ) (w : W) (f : RsgFiboNode W)
      → fibo_at fl v fs ≡ some f
      → fl.key f.succ_ratio_in_log ≤ fl.key w
      → IsIncrease (get_key fl fs) (get_key fl (set_ratio fl v w fs)) v
  unfolding get_key
  ratio-IsIncrease fs v w f at more = (
    (λ z other. rw (fibo_at-set_ratio_other fl fs v z w other) refl),
    rw (fibo_at-set_ratio_same fl fs v w, at) more,
  )

  with_ratio-IsTop :
      (n : ℕ) (w : W) (o : Option (RsgFiboNode W)) → IsLog fl n w → IsTop n (with_ratio fl w o)
  with_ratio-IsTop n w none t = tt
  with_ratio-IsTop n w (some f) t = t

  pub set_ratio-IsTop :
      (n : ℕ) (fs : List (RsgFiboNode W)) (v k : ℕ) (w : W)
      → IsLog fl n w
      → IsTop n (fibo_at fl k fs)
      → IsTop n (fibo_at fl k (set_ratio fl v w fs))
  set_ratio-IsTop n fs v k w t u = elim (Bool-cases (k == v)) [
    | inl e ↦
        let same : k ≡ v = ground arith in
        rw (same, fibo_at-set_ratio_same fl fs v w) (with_ratio-IsTop n w (fibo_at fl v fs) t)
    | inr e ↦ rw (fibo_at-set_ratio_other fl fs v k w e) u
  ]
