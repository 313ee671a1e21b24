-- ===== src/Links/Failover.antt =====
-- `updatePreferredPathWithLSA` (lltc-strategy-forwarding-sublayer-path-control.cpp): the link states of
-- an LSA are written to the subgraphs of the node, and the paths of each are chosen anew.
use drtp.Base.{
  ℕ, ◌≡◌, ◌⊎◌, inl, inr, Bool, true, false, not, ◌&&◌, ◌||◌, Option, some, List, [], ◌∷◌, arith,
  ◌==◌, Bool-cases, if◌then◌else◌, ◌>>=◌,
}
use drtp.Messages.{LinkState}
use drtp.Fs.{LltcFibEntry, ForwardingStateForRsg, uint_max}
use drtp.Subgraph.{RsgStruct, rsg_update_link_status}
use drtp.Preferred.{Double, Rsg, rsg_compute_preferred_path_id}
use drtp.Preferred.Searching.{IsRsg}
use drtp.Preferred.Choice.{AreNamed, LeadsAway, LeadsTo}

-- An entry of `fssMap` with its subgraph.
pub record RsgEntry (W : Type 0) : Type 0 where
  pub rsg_id : ℕ
  pub fs : ForwardingStateForRsg
  pub rsg : Rsg W

unfoldable pub has_retrans_point : List LltcFibEntry → Bool
has_retrans_point [] = false
has_retrans_point (fe ∷ fes) = fe.is_retrans_point || has_retrans_point fes

-- The loop over the link states. A status other than 1 (failure) is 0 (normal).
unfoldable pub update_link_states : ℕ → List LinkState → RsgStruct → RsgStruct
update_link_states source [] states = states
update_link_states source (ls ∷ lss) states =
    update_link_states source lss
      (rsg_update_link_status states source ls.neighbored_node_id (if ls.status == 1 then 1 else 0))

unfoldable pub set_down : ℕ → ForwardingStateForRsg → ForwardingStateForRsg
set_down path fs =
    if not (path == uint_max) && not (path == fs.preferred_down_path_id)
    then record fs {
      preferred_down_path_id = path;
      is_down_path_in_rsp_state = not (path == fs.primary_path_id);
    }
    else fs

unfoldable pub set_up : ℕ → ForwardingStateForRsg → ForwardingStateForRsg
set_up path fs =
    if not (path == uint_max) && not (path == fs.preferred_up_path_id)
    then record fs {
      preferred_up_path_id = path;
      is_up_path_in_rsp_state = not (path == fs.primary_path_id);
    }
    else fs

module _ {W : Type 0} (fl : Double W) (local source : ℕ) (ls_list : List LinkState) where
  unfoldable pub with_link_states : Rsg W → Rsg W
  unfolding update_link_states
  with_link_states rsg = record rsg { states = update_link_states source ls_list rsg.states }

  -- The body of the loop over the subgraphs, behind its early return.
  unfoldable pub update_entry : RsgEntry W → Option (RsgEntry W)
  unfolding with_link_states set_down set_up
  update_entry e = rsg_compute_preferred_path_id fl (with_link_states e.rsg) local >>= λ pl.
      some (record e {
        rsg = with_link_states e.rsg;
        fs = set_up pl.up_link_id (set_down pl.down_link_id e.fs);
      })

  -- The loop, which an entry without a retransmission point ends.
  unfoldable pub update_preferred_path_with_lsa : List (RsgEntry W) → Option (List (RsgEntry W))
  unfolding has_retrans_point update_entry
  update_preferred_path_with_lsa [] = some []
  update_preferred_path_with_lsa (e ∷ es) =
      let rest =
        (update_entry e >>= λ e'. update_preferred_path_with_lsa es >>= λ es'. some (e' ∷ es')) in
      if has_retrans_point e.fs.fib_entries then rest else some (e ∷ es)

  -- The preferred paths, and whether they are sub-paths.
  abbrev pub IsConsistent : ForwardingStateForRsg → Type 0
  IsConsistent fs =
      (fs.is_down_path_in_rsp_state ≡ not (fs.preferred_down_path_id == fs.primary_path_id))
      × (fs.is_up_path_in_rsp_state ≡ not (fs.preferred_up_path_id == fs.primary_path_id))

  pub record IsEntry (e : RsgEntry W) : Type 0 where
    pub graph : IsRsg fl e.rsg
    pub names : AreNamed fl e.rsg e.rsg.nodes
    pub consistent : IsConsistent e.fs

  -- What an entry becomes: another subgraph state, and paths that are as before, or those of links
  -- that have not failed.
  pub record IsUpdate (e e' : RsgEntry W) : Type 0 where
    pub entry : IsEntry e'
    pub states : e'.rsg ≡ with_link_states e.rsg
    pub down :
        (e'.fs.preferred_down_path_id ≡ e.fs.preferred_down_path_id)
        ⊎ LeadsAway fl e'.rsg local e'.fs.preferred_down_path_id
    pub up :
        (e'.fs.preferred_up_path_id ≡ e.fs.preferred_up_path_id)
        ⊎ LeadsTo fl e'.rsg local e'.fs.preferred_up_path_id

  -- A path that is none, or leads on, once it is set.
  chosen :
      (P : ℕ → Type 0) (path old new : ℕ)
      → new ≡ (if path == uint_max then old else path)
      → (path ≡ uint_max) ⊎ P path
      → (new ≡ old) ⊎ P new
  chosen P path old new e h = elim (Bool-cases (path == uint_max)) [
    | inl f ↦ inl (ground (arith, e, f))
    | inr f ↦ inr (leads f h)
  ]
    where
      leads : (path == uint_max) ≡ false → (path ≡ uint_max) ⊎ P path → P new
      leads f (inl g) = absurd (ground (arith, f, g))
      leads f (inr p) = let same : new ≡ path = ground (arith, e, f) in rw same p

  -- The entries up to the first without a retransmission point are updated; it and those behind it
  -- are as before.
  abbrev pub AreUpdates : List (RsgEntry W) → List (RsgEntry W) → Type 0
  AreUpdates [] es' = es' ≡ []
  AreUpdates (e ∷ es) es' =
      ((has_retrans_point e.fs.fib_entries ≡ false) × (es' ≡ e ∷ es))
      ⊎ ((has_retrans_point e.fs.fib_entries ≡ true)
          × (e' : RsgEntry W) × (rest : List (RsgEntry W)) × (es' ≡ e' ∷ rest)
          × IsUpdate e e'
          × AreUpdates es rest)
