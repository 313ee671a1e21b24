-- ===== src/Names/RoundTrip.antt =====
-- NFD/daemon/fw/lltc-messages-helper.cpp (ndnSIM/ns-3/src/ndnSIM): what the parse functions read from
-- the names that the construct functions give, against the fields that drtp.Messages keeps.
use drtp.Base.{ℕ, ◌%◌, ◌^◌, ◌<◌, ◌≡◌, refl, Bool, true, false, some, [], ◌∷◌, arith}
use drtp.Base.Seqs.{length}
use drtp.Messages.{RetransType, retran_s_uri, retran_m_uri}
use drtp.Names.Texts.{
  codes, show, stoll, before, behind, is_digit, after_text, stoll-show, before-digits,
  behind-digits,
}
use drtp.Names.{Name, get, number}
use drtp.Names.Retransmissions.{
  retran_s_text, retran_s_name, exact_delta, closest_delta, parse_exact, parse_closest, parse_miss,
  parse_not_exact, parse_retran_s_type, parse_retran_s_uri, retran_m_text, retran_m_name,
  parse_closest_m, parse_retran_m_type, parse_retran_m_uri,
}
use drtp.Names.Fields.{get-append, get_number-number, get_id-number, get_batch_id-number}

stoll-number : (v : ℕ) → v < 2 ^ 63 → stoll (number v) ≡ some v
unfolding number
stoll-number v h = stoll-show v [] h refl

parse_closest_lem :
    (id source requested time : ℕ)
    → requested < 2 ^ 32
    → time < 2 ^ 63
    → parse_closest id source (show requested (b'D' ∷ number time))
      ≡ some (retran_s_uri id source RetransType.closest requested time)
unfolding parse_closest closest_delta before behind is_digit retran_s_uri
parse_closest_lem id source requested time h g =
    let wrap : requested % 2 ^ 32 ≡ requested = omega (arith, h) in
    rw
      (
        before-digits b'D' 20 requested (b'D' ∷ number time) refl,
        stoll-show requested [] (omega (arith, h)) refl,
        behind-digits b'D' 20 requested (b'D' ∷ number time) refl,
        stoll-number time g,
        wrap,
      )
      refl

parse_retran_s_type_lem :
    (id source : ℕ) (type : RetransType) (requested time : ℕ)
    → requested < 2 ^ 32
    → time < 2 ^ 63
    → (let t = retran_s_text type requested time in
        parse_retran_s_type id source t (after_text (codes "Exact") t))
      ≡ some (retran_s_uri id source type requested time)
unfolding retran_s_text after_text parse_retran_s_type parse_exact parse_not_exact parse_miss
    exact_delta retran_s_uri
parse_retran_s_type_lem id source RetransType.exact requested time h g =
    rw (stoll-number time g) refl
parse_retran_s_type_lem id source RetransType.closest requested time h g =
    parse_closest_lem id source requested time h g
parse_retran_s_type_lem id source RetransType.miss requested time h g = refl

-- For a lost ID, a node ID and a closest ID below `2 ^ 32` and a time below `2 ^ 63`: parseRetranSUri reads
-- from the name that constructRetranS gives to a message of any type the fields that the model keeps
-- of it.
pub parse_retran_s_uri-retran_s_name :
    (prefix : Name) (lost node_id : ℕ) (type : RetransType) (closest_id time : ℕ)
    → lost < 2 ^ 32
    → node_id < 2 ^ 32
    → closest_id < 2 ^ 32
    → time < 2 ^ 63
    → parse_retran_s_uri (length prefix) (retran_s_name prefix lost node_id type closest_id time)
      ≡ some (retran_s_uri lost node_id type closest_id time)
unfolding parse_retran_s_uri retran_s_name get
parse_retran_s_uri-retran_s_name prefix lost node_id type closest_id time h g c d =
    let t = retran_s_text type closest_id time in
    let rest = codes "RetranS" ∷ number lost ∷ number node_id ∷ t ∷ [] in
    rw
      (
        get_id-number prefix rest 1 lost h refl,
        get_number-number prefix rest 2 node_id g refl,
        get-append prefix rest 3,
      )
      (parse_retran_s_type_lem lost node_id type closest_id time c d)

parse_retran_m_type_lem :
    (bri source : ℕ) (is_exact : Bool) (data_id requested : ℕ)
    → data_id < 2 ^ 32
    → requested < 2 ^ 32
    → (let t = retran_m_text is_exact data_id requested in
        parse_retran_m_type bri source t (after_text (codes "Exact-") t))
      ≡ some (retran_m_uri bri source is_exact data_id requested)
unfolding retran_m_text after_text parse_retran_m_type parse_closest_m before behind is_digit
    retran_m_uri
parse_retran_m_type_lem bri source true data_id requested h g =
    let wrap : data_id % 2 ^ 32 ≡ data_id = omega (arith, h) in
    rw (stoll-number data_id (omega (arith, h)), wrap) refl
parse_retran_m_type_lem bri source false data_id requested h g =
    let wrap : data_id % 2 ^ 32 ≡ data_id = omega (arith, h) in
    let wrap_requested : requested % 2 ^ 32 ≡ requested = omega (arith, g) in
    rw
      (
        before-digits b'-' 20 data_id (b'-' ∷ number requested) refl,
        stoll-show data_id [] (omega (arith, h)) refl,
        behind-digits b'-' 20 data_id (b'-' ∷ number requested) refl,
        stoll-number requested (omega (arith, g)),
        wrap,
        wrap_requested,
      )
      refl

-- The name of a RetranM gives back its fields.
pub parse_retran_m_uri-retran_m_name :
    (prefix : Name) (bri node_id : ℕ) (is_exact : Bool) (data_id requested : ℕ)
    → bri < 2 ^ 64
    → node_id < 2 ^ 32
    → data_id < 2 ^ 32
    → requested < 2 ^ 32
    → parse_retran_m_uri
        (length prefix)
        (retran_m_name prefix bri node_id is_exact data_id requested)
      ≡ some (retran_m_uri bri node_id is_exact data_id requested)
unfolding parse_retran_m_uri retran_m_name get
parse_retran_m_uri-retran_m_name prefix bri node_id is_exact data_id requested h g c d =
    let t = retran_m_text is_exact data_id requested in
    let rest = codes "RetranM" ∷ number bri ∷ number node_id ∷ t ∷ [] in
    rw
      (
        get_batch_id-number prefix rest 1 bri h refl,
        get_number-number prefix rest 2 node_id g refl,
        get-append prefix rest 3,
      )
      (parse_retran_m_type_lem bri node_id is_exact data_id requested c d)
