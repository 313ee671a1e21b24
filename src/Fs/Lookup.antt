-- ===== src/Fs/Lookup.antt =====
-- The lookups in the forwarding state of a node (lookupForwardingEntry,
-- lltc-strategy-forwarding-sublayer-packet-forwarding.cpp).
use drtp.Base.{ℕ, ◌≡◌, none, some, List, [], ◌∷◌, arith}
use drtp.Base.Maps.{find}
use drtp.Fs.{LltcFibEntry, ForwardingStateCollection, first_entry, lookup_forwarding_entry}

pub first_entry_sound :
    (path_id direction : ℕ) (fes : List LltcFibEntry) {hit : LltcFibEntry}
    → first_entry path_id direction fes ≡ some hit
    → (hit.path_id ≡ path_id) × (hit.direction ≡ direction)
unfolding first_entry
first_entry_sound path_id direction [] {hit} e = absurd (ground arith)
first_entry_sound path_id direction (fe ∷ fes) {hit} e =
    ground (arith, first_entry_sound path_id direction fes {hit = hit})

-- No entry is found under an identifier that names no subgraph.
pub lookup_forwarding_entry_unknown :
    (coll : ForwardingStateCollection) (rsg_id path_id direction : ℕ)
    → find rsg_id coll.fss_map ≡ none
    → lookup_forwarding_entry coll rsg_id path_id direction ≡ none
unfolding lookup_forwarding_entry
lookup_forwarding_entry_unknown coll rsg_id path_id direction e = ground arith
