-- ===== src/Names/Retransmissions.antt =====
-- NFD/daemon/fw/lltc-messages-helper.cpp (ndnSIM/ns-3/src/ndnSIM): the names of RetranS and RetranM
-- messages, in which the type, the closest ID and the delay share one component.
use drtp.Base.{
  ℕ, ◌+◌, ◌%◌, ◌^◌, Bool, true, false, Option, none, some, [], ◌∷◌, ◌++◌, ◌==◌, if◌then◌else◌,
  ◌>>=◌,
}
use drtp.Messages.{RetransType, RetranSUri, RetranMUri}
use drtp.Names.Texts.{Text, codes, show, stoll, before, behind, after_text}
use drtp.Names.{Name, get, get_number, get_id, get_batch_id, number, or_whole}

unfoldable pub retran_s_text : RetransType → ℕ → ℕ → Text
unfolding number
retran_s_text RetransType.exact closest_id time = codes "Exact" ++ b'D' ∷ number time
retran_s_text RetransType.closest closest_id time =
    codes "Closest-" ++ show closest_id (b'D' ∷ number time)
retran_s_text RetransType.miss closest_id time = codes "Miss"

unfoldable pub retran_s_name : Name → ℕ → ℕ → RetransType → ℕ → ℕ → Name
unfolding number retran_s_text
retran_s_name prefix lost node_id type closest_id time =
    prefix
    ++ codes "RetranS" ∷ number lost ∷ number node_id ∷ retran_s_text type closest_id time ∷ []

-- The delta is there only behind a `D`.
unfoldable pub exact_delta : Text → Option ℕ
exact_delta [] = some 0
exact_delta (c ∷ t) = if c == b'D' then stoll t else some 0

unfoldable pub closest_delta : Option Text → Option ℕ
closest_delta none = some 0
closest_delta (some t) = stoll t

unfoldable pub parse_exact : ℕ → ℕ → Text → Option RetranSUri
unfolding exact_delta
parse_exact id source rest = exact_delta rest >>= λ delta. some (record {
  data_id = id;
  source_node_id = source;
  type = RetransType.exact;
  requested_data_id = id;
  drifting_delta = delta;
})

unfoldable pub parse_closest : ℕ → ℕ → Text → Option RetranSUri
unfolding closest_delta
parse_closest id source rest = stoll (before b'D' rest) >>= λ requested.
    closest_delta (behind b'D' rest) >>= λ delta. some (record {
      data_id = id;
      source_node_id = source;
      type = RetransType.closest;
      requested_data_id = requested % 2 ^ 32;
      drifting_delta = delta;
    })

unfoldable pub parse_miss : ℕ → ℕ → Option Text → Option RetranSUri
parse_miss id source none = none
parse_miss id source (some rest) = some (record {
  data_id = id;
  source_node_id = source;
  type = RetransType.miss;
  requested_data_id = id;
  drifting_delta = 0;
})

unfoldable pub parse_not_exact : ℕ → ℕ → Text → Option Text → Option RetranSUri
unfolding parse_closest parse_miss
parse_not_exact id source type (some rest) = parse_closest id source rest
parse_not_exact id source type none = parse_miss id source (after_text (codes "Miss") type)

unfoldable pub parse_retran_s_type : ℕ → ℕ → Text → Option Text → Option RetranSUri
unfolding parse_exact parse_not_exact
parse_retran_s_type id source type (some rest) = parse_exact id source rest
parse_retran_s_type id source type none =
    parse_not_exact id source type (after_text (codes "Closest-") type)

unfoldable pub parse_retran_s_uri : ℕ → Name → Option RetranSUri
unfolding get_id get_number get parse_retran_s_type
parse_retran_s_uri n name = get_id (n + 1) name >>= λ id. get_number (n + 2) name >>= λ source.
    get (n + 3) name >>= λ type.
    parse_retran_s_type id source type (after_text (codes "Exact") type)

unfoldable pub retran_m_text : Bool → ℕ → ℕ → Text
unfolding number
retran_m_text true data_id requested = codes "Exact-" ++ number data_id
retran_m_text false data_id requested = codes "Closest-" ++ show data_id (b'-' ∷ number requested)

unfoldable pub retran_m_name : Name → ℕ → ℕ → Bool → ℕ → ℕ → Name
unfolding number retran_m_text
retran_m_name prefix bri node_id is_exact data_id requested =
    prefix
    ++ codes "RetranM" ∷ number bri ∷ number node_id ∷ retran_m_text is_exact data_id requested ∷ []

unfoldable pub parse_closest_m : ℕ → ℕ → Option Text → Option RetranMUri
parse_closest_m bri source none = none
parse_closest_m bri source (some a) = stoll (before b'-' a) >>= λ id.
    stoll (or_whole a (behind b'-' a)) >>= λ requested. some (record {
      bri = bri;
      source_node_id = source;
      is_exact = false;
      data_id = id % 2 ^ 32;
      requested_data_id = requested % 2 ^ 32;
    })

unfoldable pub parse_retran_m_type : ℕ → ℕ → Text → Option Text → Option RetranMUri
unfolding parse_closest_m
parse_retran_m_type bri source type (some rest) = stoll rest >>= λ id. some (record {
  bri = bri;
  source_node_id = source;
  is_exact = true;
  data_id = id % 2 ^ 32;
  requested_data_id = id % 2 ^ 32;
})
parse_retran_m_type bri source type none =
    parse_closest_m bri source (after_text (codes "Closest-") type)

unfoldable pub parse_retran_m_uri : ℕ → Name → Option RetranMUri
unfolding get_batch_id get_number get parse_retran_m_type
parse_retran_m_uri n name = get_batch_id (n + 1) name >>= λ bri.
    get_number (n + 2) name >>= λ source. get (n + 3) name >>= λ type.
    parse_retran_m_type bri source type (after_text (codes "Exact-") type)
