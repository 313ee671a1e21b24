-- ===== src/Interests/Table.antt =====
-- What `afterReceiveInterest` (lltc-strategy-forwarding-sublayer-packet-forwarding.cpp,
-- ndnSIM/ns-3/src/ndnSIM/NFD/daemon/fw) leaves of the capsule states, and what it sends.
use drtp.Base.{
  ℕ, ◌≡◌, ◌≢◌, refl, ap, ◌⊎◌, inl, inr, Bool, true, false, Option, none, some, List, [], ◌∷◌, map,
  String, str_eq, eq_iff, ◌==◌, Bool-cases,
}
use drtp.Fs.{
  ForwardingStateForRsg, ForwardingStateCollection, LltcFibEntry, extract_rsg_id, uint_max,
  get_forwarding_state, lookup_forwarding_entry,
}
use drtp.State.{CapsuleForwardingStates, Config}
use drtp.Run.{new_capsule_forwarding_states}
use drtp.Interests.{
  Interest, InterestCall, Prefixes, send_interest, reject_pending_interest, states_of,
  create_unless, create_or_get, request, send_lltc_interest, send_to_hops, send_locally,
  to_upstream, in_subgraph, after_receive_interest,
}

-- A table in which no states are lost or replaced, and only this name may have got new ones.
abbrev pub Extends :
    String
    → ℕ
    → List (String × CapsuleForwardingStates)
    → List (String × CapsuleForwardingStates)
    → Type 0
Extends name queue_size m m' =
    (other : String)
    → (states_of other m' ≡ states_of other m)
      ⊎ ((name ≡ other)
          × (states_of other m ≡ none)
          × (states_of other m' ≡ some (new_capsule_forwarding_states name queue_size)))

module _ (name : String) (queue_size : ℕ) (m : List (String × CapsuleForwardingStates)) where
  abbrev fresh : CapsuleForwardingStates
  fresh = new_capsule_forwarding_states name queue_size

  create_unless-Extends :
      (o : Option CapsuleForwardingStates)
      → states_of name m ≡ o
      → Extends name queue_size m (create_unless name queue_size m o)
  unfolding create_unless states_of
  create_unless-Extends (some ds) e other = inl refl
  create_unless-Extends none e other = elim (Bool-cases (str_eq name other)) [
    | inl f ↦
        let same : name ≡ other = (eq_iff name other).0 f in inr (same, rw⁻¹ same e, rw f refl)
    | inr f ↦ inl (rw f refl)
  ]

  create_unless-Has :
      (o : Option CapsuleForwardingStates)
      → states_of name m ≡ o
      → (ds : CapsuleForwardingStates) × (states_of name (create_unless name queue_size m o)
          ≡ some ds)
  unfolding create_unless states_of
  create_unless-Has (some ds) e = (ds, e)
  create_unless-Has none e = (fresh, rw ((eq_iff name name).1 refl) refl)

-- Calls made one after another.
abbrev pub then_calls : List InterestCall → List InterestCall → List InterestCall
then_calls [] calls = calls
then_calls (c ∷ cs) calls = then_calls cs (c ∷ calls)

send_to_hops-Calls :
    (interest : Interest) (faces : List ℕ) (p : Prefixes)
    → ((send_to_hops interest faces p).calls
        ≡ then_calls (map (λ face. send_interest interest face) faces) p.calls)
      × ((send_to_hops interest faces p).states_map ≡ p.states_map)
unfolding send_to_hops request
send_to_hops-Calls interest [] p = (refl, refl)
send_to_hops-Calls interest (face ∷ faces) p =
    send_to_hops-Calls interest faces (request (send_interest interest face) p)

module _ (config : Config) (coll : ForwardingStateCollection) (interest : Interest) (pending : Bool)
    (next_hops : List ℕ) where
  abbrev rsg_of : ℕ
  rsg_of = extract_rsg_id coll interest.rsg_id_tag interest.name

  abbrev pub IsDropped : Prefixes → Prefixes → Type 0
  IsDropped p p' =
      ((pending ≡ true) ⊎ ((rsg_of == uint_max) ≡ true) ⊎ (get_forwarding_state coll rsg_of ≡ none))
      × (p' ≡ p)

  -- The interest goes to the upstream node of the primary path, and states are there for its Data.
  abbrev pub IsPassedOn : ForwardingStateForRsg → Prefixes → Prefixes → Type 0
  IsPassedOn fs p p' =
      (fe : LltcFibEntry) × (lookup_forwarding_entry coll rsg_of fs.primary_path_id 1 ≡ some fe)
      × (p'.calls
          ≡ send_interest (record interest { rsg_id_tag = some rsg_of }) fe.face_next_hop ∷ p.calls)
      × ((ds : CapsuleForwardingStates) × (states_of interest.name p'.states_map ≡ some ds))

  -- At the source it goes to each next hop of the local FIB, and is rejected without one.
  abbrev pub IsAnsweredHere : ForwardingStateForRsg → Prefixes → Prefixes → Type 0
  IsAnsweredHere fs p p' =
      (lookup_forwarding_entry coll rsg_of fs.primary_path_id 1 ≡ none)
      × (p'.states_map ≡ p.states_map)
      × (((next_hops ≡ []) × (p'.calls ≡ reject_pending_interest ∷ p.calls))
          ⊎ ((next_hops ≢ [])
              × (p'.calls
                  ≡ then_calls (map (λ face. send_interest interest face) next_hops) p.calls)))

  abbrev pub IsHandled : Prefixes → Prefixes → Type 0
  IsHandled p p' =
      IsDropped p p'
      ⊎ ((pending ≡ false)
          × ((rsg_of == uint_max) ≡ false)
          × ((fs : ForwardingStateForRsg) × (get_forwarding_state coll rsg_of ≡ some fs)
              × (IsPassedOn fs p p' ⊎ IsAnsweredHere fs p p')))

  abbrev pub Keeps : Prefixes → Prefixes → Type 0
  Keeps p p' =
      Extends interest.name config.queue_size_for_transmitted_data_ids p.states_map p'.states_map

  ends_here :
      (fs : ForwardingStateForRsg) (p : Prefixes)
      → lookup_forwarding_entry coll rsg_of fs.primary_path_id 1 ≡ none
      → (hops : List ℕ) → next_hops ≡ hops
      → Keeps p (send_locally interest hops p) × IsAnsweredHere fs p (send_locally interest hops p)
  unfolding send_locally request
  ends_here fs p e [] h = (λ other. inl refl, (e, refl, inl (h, refl)))
  ends_here fs p e (face ∷ faces) h =
      let sent = send_to_hops-Calls interest (face ∷ faces) p in
      (
        λ other. inl (ap (λ m. states_of other m) (sent.1)),
        (e, sent.1, inr (λ empty. let g : ⊥ = cc in g, rw h (sent.0))),
      )

  upstream :
      (fs : ForwardingStateForRsg) (p : Prefixes) (o : Option LltcFibEntry)
      → lookup_forwarding_entry coll rsg_of fs.primary_path_id 1 ≡ o
      → let p' = to_upstream config interest next_hops rsg_of o p in
        Keeps p p' × (IsPassedOn fs p p' ⊎ IsAnsweredHere fs p p')
  unfolding to_upstream send_lltc_interest request create_or_get
  upstream fs p none e = let r = ends_here fs p e next_hops refl in (r.0, inr (r.1))
  upstream fs p (some fe) e =
      let size = config.queue_size_for_transmitted_data_ids in
      (
        create_unless-Extends interest.name size p.states_map (states_of interest.name p.states_map)
            refl,
        inl (
          fe,
          e,
          refl,
          create_unless-Has interest.name size p.states_map (states_of interest.name p.states_map)
              refl,
        ),
      )

  subgraph :
      (p : Prefixes) (o : Option ForwardingStateForRsg)
      → get_forwarding_state coll rsg_of ≡ o
      → pending ≡ false
      → (rsg_of == uint_max) ≡ false
      → let p' = in_subgraph config coll interest next_hops rsg_of o p in
        Keeps p p' × IsHandled p p'
  unfolding in_subgraph
  subgraph p none e a b = (λ other. inl refl, inl (inr (inr e), refl))
  subgraph p (some fs) e a b =
      let (kept, done) =
        upstream fs p (lookup_forwarding_entry coll rsg_of fs.primary_path_id 1) refl in
      (kept, inr (a, b, (fs, e, done)))

  for_same : (p' q p : Prefixes) → p' ≡ q → Keeps p q × IsHandled p q → Keeps p p' × IsHandled p p'
  for_same p' q p e t = rw e t

  -- What afterReceiveInterest does: it drops an interest that waits already or belongs to no known
  -- subgraph; it passes one on to the upstream node of the primary path, tagged with its subgraph, once
  -- there are capsule states for its name; without an upstream node it sends it to every next hop of
  -- the local FIB, and rejects it if there is none. No states of any prefix are lost or replaced, and
  -- new ones are only made for its name.
  pub after_receive_interest_lem :
      (p : Prefixes)
      → let p' = after_receive_interest config coll interest pending next_hops p in
        Keeps p p' × IsHandled p p'
  unfolding after_receive_interest
  after_receive_interest_lem p = elim (Bool-cases pending) [
    | inl a ↦
        for_same (after_receive_interest config coll interest pending next_hops p) p p (rw a refl)
          (λ other. inl refl, inl (inl a, refl))
    | inr a ↦ elim (Bool-cases (rsg_of == uint_max)) [
      | inl b ↦
          for_same (after_receive_interest config coll interest pending next_hops p) p p
            (rw (a, b) refl) (λ other. inl refl, inl (inr (inl b), refl))
      | inr b ↦
          for_same (after_receive_interest config coll interest pending next_hops p)
            (in_subgraph config coll interest next_hops rsg_of (get_forwarding_state coll rsg_of) p)
            p (rw (a, b) refl) (subgraph p (get_forwarding_state coll rsg_of) refl a b)
    ]
  ]
