-- ===== src/Preferred/Round.antt =====
-- A round of the search of `rsgComputePreferredPathID`
-- (model/lltc/lltc-resilient-routes-subgraph.cpp): the links of the node that was taken out.
use drtp.Base.{
  ℕ, suc, ◌≤◌, ◌<◌, ◌≡◌, refl, sym, ap, ◌∙◌, inl, inr, true, false, not, ◌&&◌, Option, some, List,
  [], ◌∷◌, arith, ◌==◌, Bool-cases, ◌>>=◌,
}
use drtp.Base.Seqs.{All, elem, length}
use mathlib.Core.Path.{subst}
use drtp.Base.Maps.{assign}
use drtp.FibonacciHeap.Queue.{holds}
use drtp.FibonacciHeap.Increase.{increase_key_lem}
use drtp.Subgraph.{status_of}
use drtp.Preferred.{
  Double, RsgVirLink, RsgNode, Rsg, RsgFiboNode, RsgPrevNodeInfo, Search, component_of, fibo_at,
  get_key, set_ratio, rsg_get_sub_graph_node_by_id, vir_link_id_of, update_key, relax_to, relax,
  relax_all, node_ids_of,
}
use drtp.Preferred.Arrays.{nth, id_in, id_in-set_ratio, found_by_id}
use drtp.Preferred.Ratios.{most_nodes, IsLog, IsRatio, IsDouble}
use drtp.Preferred.Invariant.{
  IsTop, in_set, HasLive, IsFrom, IsSearch, info_of-assign, IsChained-assign, ratio-IsIncrease,
  set_ratio-IsTop,
}

module _ {W : Type 0} (fl : Double W) (laws : IsDouble fl) (rsg : Rsg W) (u : RsgFiboNode W)
    (older : List ℕ) (few : length older < most_nodes) where
  -- A state in which the node was taken out last, with as many nodes in the heap.
  abbrev pub Goes : Option (Search W) → ℕ → Type 0
  Goes r n =
      (s' : Search W) × (r ≡ some s')
      × IsSearch fl rsg (u.node_id ∷ older) s'
      × (s'.fh.number_of_nodes ≡ n)

  update_key-Goes :
      (v : ℕ) (alt : W) (info : RsgPrevNodeInfo) (f : RsgFiboNode W) (s : Search W)
      → IsSearch fl rsg (u.node_id ∷ older) s
      → fibo_at fl v s.fibo_nodes ≡ some f
      → elem f.node_id s.nodes_in_fh ≡ true
      → IsLog fl (suc (length older)) (fl.of_key (fl.key alt))
      → fl.key f.succ_ratio_in_log ≤ fl.key (fl.of_key (fl.key alt))
      → IsFrom fl rsg (u.node_id ∷ older) f.node_id info
      → Goes (update_key fl v alt info f s) s.fh.number_of_nodes
  unfolding update_key
  update_key-Goes v alt info f s i at there top more from =
      let w = fl.of_key (fl.key alt) in
      let fibo' = set_ratio fl v w s.fibo_nodes in
      let here : nth v (node_ids_of fl rsg.nodes) ≡ some f.node_id =
        sym (i.named v) ∙ ap (id_in fl) at in
      let one : holds v s.fh ≡ in_set s.nodes_in_fh (some f.node_id) =
        i.held v ∙ ap (in_set s.nodes_in_fh) here in
      let holding : 0 < holds v s.fh = ground (arith, one, there) in
      let (fh', returned, valid, same, size) =
        increase_key_lem (get_key fl s.fibo_nodes) (get_key fl fibo') v s.fh i.valid holding
          (ratio-IsIncrease fl s.fibo_nodes v w f at more) in
      let old : elem f.node_id (u.node_id ∷ older) ≡ false =
        ground (arith, there, i.apart f.node_id (i.inside f.node_id there)) in
      (
        record s {
          fh = fh';
          fibo_nodes = fibo';
          rr_node_info = assign f.node_id info s.rr_node_info;
        },
        rw (returned, ◌>>=◌) refl,
        record {
          valid = valid;
          named = λ k. id_in-set_ratio fl s.fibo_nodes v k w ∙ i.named k;
          held = λ k. same k ∙ i.held k;
          tops = λ k. set_ratio-IsTop fl (suc (length older)) s.fibo_nodes v k w top (i.tops k);
          apart = i.apart;
          inside = i.inside;
          chained =
              IsChained-assign fl rsg f.node_id info s.rr_node_info (u.node_id ∷ older) old
                i.chained;
          behind = λ id is_node free. elim (Bool-cases (f.node_id == id)) [
            | inl e ↦
                let named_ : id ≡ f.node_id = ground arith in
                rw (info_of-assign fl f.node_id id info s.rr_node_info, e) (rw named_ from)
            | inr e ↦
                rw (info_of-assign fl f.node_id id info s.rr_node_info, e)
                  (i.behind id is_node free)
          ];
        },
        size,
      )

  -- The node itself, and a link of it that leads to a node in the heap.
  relax_to-Goes :
      (comps : List (ℕ × ℕ)) (l : RsgVirLink W) (v : ℕ) (f : RsgFiboNode W) (s : Search W)
      → IsSearch fl rsg (u.node_id ∷ older) s
      → fibo_at fl v s.fibo_nodes ≡ some f
      → elem f.node_id s.nodes_in_fh ≡ true
      → IsLog fl (length older) u.succ_ratio_in_log
      → IsRatio fl l.succ_ratio_in_log
      → IsFrom fl rsg
          (u.node_id ∷ older)
          f.node_id
          (record { node_id = u.node_id; vir_link_id = vir_link_id_of fl l })
      → Goes (relax_to fl comps u l v s) s.fh.number_of_nodes
  unfolding relax_to
  relax_to-Goes comps l v f s i at there top_u top_l from =
      let alt = fl.plus u.succ_ratio_in_log l.succ_ratio_in_log in
      let top_f : IsLog fl (suc (length older)) f.succ_ratio_in_log =
        subst (IsTop fl (suc (length older))) at (i.tops v) in
      let stay : Goes (some s) s.fh.number_of_nodes = (s, refl, i, refl) in
      elim (Bool-cases
        ((component_of comps f.node_id == component_of comps u.node_id) && not l.is_on_prim_path)) [
          | inl e ↦ rw (relax_to, at, ◌>>=◌, e) stay
          | inr e ↦ elim (Bool-cases (fl.gt alt f.succ_ratio_in_log)) [
            | inl more ↦
                rw (relax_to, at, ◌>>=◌, e, more)
                  (update_key-Goes v alt
                    (record { node_id = u.node_id; vir_link_id = vir_link_id_of fl l }) f s i at
                    there
                    (laws.written_back (length older) u.succ_ratio_in_log l.succ_ratio_in_log
                      f.succ_ratio_in_log few top_u top_l top_f more)
                    (omega (
                      arith,
                      laws.key_monotone (length older) u.succ_ratio_in_log l.succ_ratio_in_log
                          f.succ_ratio_in_log few top_u top_l top_f more,
                      laws.rounds (length older) u.succ_ratio_in_log l.succ_ratio_in_log
                          f.succ_ratio_in_log few top_u top_l top_f more,
                    ))
                    from)
            | inr less ↦ rw (relax_to, at, ◌>>=◌, e, less) stay
          ]
        ]

  module _ (node : RsgNode W)
      (found : rsg_get_sub_graph_node_by_id fl u.node_id rsg.nodes ≡ some node) where
    abbrev pub states : List (ℕ × ℕ)
    states = rsg.states.link_status_map

    -- Links of the node, and a live one among them.
    abbrev pub IsPart : List (RsgVirLink W) → Type 0
    IsPart ls =
        (id vid : ℕ) → HasLive fl states id vid ls → HasLive fl states id vid node.egress_vir_links

    relax-Goes :
        (comps : List (ℕ × ℕ)) (l : RsgVirLink W) (ls : List (RsgVirLink W)) (s : Search W)
        → IsSearch fl rsg (u.node_id ∷ older) s
        → IsLog fl (length older) u.succ_ratio_in_log
        → IsRatio fl l.succ_ratio_in_log
        → IsPart (l ∷ ls)
        → Goes (relax fl states comps u l s) s.fh.number_of_nodes
    unfolding relax elem
    relax-Goes comps l ls s i top_u top_l part =
        elim (Bool-cases (elem l.node_egress s.nodes_in_fh)) [
          | inr e ↦ rw e (s, refl, i, refl)
          | inl e ↦ elim (Bool-cases (status_of l.link_id rsg.states.link_status_map == 1)) [
            | inl failed ↦ rw (e, failed) (s, refl, i, refl)
            | inr live ↦
                let (v, f, at_id, at, named) =
                  found_by_id fl l.node_egress s.fibo_nodes (node_ids_of fl rsg.nodes) i.named
                    (i.inside l.node_egress e) in
                let there : elem f.node_id s.nodes_in_fh ≡ true = rw named e in
                let from : IsFrom fl rsg (u.node_id ∷ older) f.node_id
                    (record { node_id = u.node_id; vir_link_id = vir_link_id_of fl l }) =
                  inr (
                    ground arith,
                    node,
                    found,
                    part f.node_id (vir_link_id_of fl l) (inl (live, sym named, refl)),
                  ) in
                rw (e, live, at_id, ◌>>=◌) (relax_to-Goes comps l v f s i at there top_u top_l from)
          ]
        ]

    pub relax_all-Goes :
        (comps : List (ℕ × ℕ)) (ls : List (RsgVirLink W)) (s : Search W)
        → IsSearch fl rsg (u.node_id ∷ older) s
        → IsLog fl (length older) u.succ_ratio_in_log
        → All (λ (l : RsgVirLink W). IsRatio fl l.succ_ratio_in_log) ls
        → IsPart ls
        → Goes (relax_all fl states comps u ls s) s.fh.number_of_nodes
    unfolding relax_all
    relax_all-Goes comps [] s i top_u tops part = (s, refl, i, refl)
    relax_all-Goes comps (l ∷ ls) s i top_u (top, tops) part =
        let (s', returned, i', size) = relax-Goes comps l ls s i top_u top part in
        let (s'', returned', i'', size') =
          relax_all-Goes comps ls s' i' top_u tops (λ id vid h. part id vid (inr h)) in
        (s'', rw (returned, ◌>>=◌) returned', i'', size' ∙ size)
