-- ===== src/Tests/Interests.antt =====
-- An interest at a node with an upstream neighbour.
use drtp.Base.{◌≡◌, refl, false, none, some, [], ◌∷◌}
use drtp.Interests.{
  Interest, Prefixes, send_interest, request, send_lltc_interest, to_upstream, in_subgraph,
  after_receive_interest,
}
use drtp.Interests.Table.{Keeps, IsHandled, after_receive_interest_lem}
use drtp.Fs.{
  extract_rsg_id, lookup_rsg_id, get_forwarding_state, lookup_forwarding_entry, first_entry,
}
use drtp.Base.Maps.{find}
use drtp.Tests.{topic, coll, config}

abbrev interest : Interest
interest = record { name = topic; rsg_id_tag = none }

abbrev nothing : Prefixes
nothing = record { states_map = []; calls = [] }

passed_on_run :
    (after_receive_interest config coll interest false [] nothing).calls
    ≡ send_interest (record interest { rsg_id_tag = some 3 }) 4 ∷ []
unfolding after_receive_interest in_subgraph to_upstream send_lltc_interest request extract_rsg_id
    lookup_rsg_id get_forwarding_state lookup_forwarding_entry first_entry find
passed_on_run = refl

after_receive_interest_lem_example :
    let p' = after_receive_interest config coll interest false [] nothing in
    Keeps config coll interest false [] nothing p'
    × IsHandled config coll interest false [] nothing p'
after_receive_interest_lem_example =
    after_receive_interest_lem config coll interest false [] nothing
