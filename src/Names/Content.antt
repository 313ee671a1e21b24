-- ===== src/Names/Content.antt =====
-- NFD/daemon/fw/lltc-messages-helper.cpp (ndnSIM/ns-3/src/ndnSIM): the bytes of the lists in the content
-- of Report, RequestM and LSA messages, with the sizes and the byte order of a 64-bit little-endian
-- machine, on which the casts of the buffer read and write. `none` is a read behind the end of the
-- buffer.
use native.Mathlib.Numerals.{unary_clauses}
use drtp.Base.{
  ℕ, zero, suc, ◌+◌, ◌*◌, ◌/◌, ◌%◌, ◌^◌, ◌<◌, ◌≡◌, refl, sym, Option, none, some, List, [], ◌∷◌,
  ◌++◌, arith, ◌>>=◌,
}
use drtp.Base.Seqs.{length, All}
use drtp.Messages.{LinkState}

-- The object representation of a number in some bytes.
unfoldable pub bytes : ℕ → ℕ → List ℕ
bytes zero n = []
bytes (suc k) n = n % 256 ∷ bytes k (n / 256)

-- A number in front of a buffer, and what is behind it.
unfoldable pub number_of : ℕ → List ℕ → Option (ℕ × List ℕ)
number_of zero buf = some (0, buf)
number_of (suc k) [] = none
number_of (suc k) (b ∷ buf) = number_of k buf >>= λ r. some (b + 256 * r.0, r.1)

unfoldable pub ids_bytes : List ℕ → List ℕ
ids_bytes [] = []
ids_bytes (id ∷ ids) = bytes 4 id ++ ids_bytes ids

-- The buffer that `constructReport` and `constructRequestM` fill: the count, then the IDs.
unfoldable pub id_list_content : List ℕ → List ℕ
id_list_content ids = bytes 8 (length ids) ++ ids_bytes ids

unfoldable pub read_ids : ℕ → List ℕ → Option (List ℕ)
read_ids zero buf = some []
read_ids (suc n) buf = number_of 4 buf >>= λ r. read_ids n (r.1) >>= λ ids. some (r.0 ∷ ids)

-- `extractReport` and `extractRequestM`.
unfoldable pub extract_ids : List ℕ → Option (List ℕ)
extract_ids buf = number_of 8 buf >>= λ r. read_ids (r.0) (r.1)

unfoldable pub link_states_bytes : List LinkState → List ℕ
link_states_bytes [] = []
link_states_bytes (ls ∷ rest) =
    bytes 4 (LinkState.neighbored_node_id ls)
    ++ (bytes 4 (LinkState.status ls) ++ link_states_bytes rest)

-- The buffer of `constructLsa`.
unfoldable pub lsa_content : List LinkState → List ℕ
lsa_content ls_list = bytes 8 (length ls_list) ++ link_states_bytes ls_list

unfoldable pub read_link_states : ℕ → List ℕ → Option (List LinkState)
read_link_states zero buf = some []
read_link_states (suc n) buf = number_of 4 buf >>= λ id. number_of 4 (id.1) >>= λ status.
    read_link_states n (status.1) >>= λ rest.
    some (record { neighbored_node_id = id.0; status = status.0 } ∷ rest)

unfoldable pub extract_lsa : List ℕ → Option (List LinkState)
extract_lsa buf = number_of 8 buf >>= λ r. read_link_states (r.0) (r.1)

power : (k : ℕ) → 256 ^ suc k ≡ 256 * 256 ^ k
power k = simp unary_clauses (omega arith)

-- A number that fits is read back.
number_of-bytes :
    (k n : ℕ) (rest : List ℕ) → n < 256 ^ k → number_of k (bytes k n ++ rest) ≡ some (n, rest)
unfolding number_of bytes
number_of-bytes zero n rest h = let z : 0 ≡ n = omega (arith, h) in rw (sym z) refl
number_of-bytes (suc k) n rest h =
    let small : n / 256 < 256 ^ k = omega (arith, h, power k) in
    let whole : n % 256 + 256 * (n / 256) ≡ n = omega arith in
    rw (number_of-bytes k (n / 256) rest small, whole) refl

read_ids-ids_bytes :
    (ids : List ℕ) → All (λ id. id < 2 ^ 32) ids → read_ids (length ids) (ids_bytes ids) ≡ some ids
unfolding read_ids ids_bytes
read_ids-ids_bytes [] h = refl
read_ids-ids_bytes (id ∷ ids) (h, hs) =
    rw (number_of-bytes 4 id (ids_bytes ids) (omega (arith, h)), read_ids-ids_bytes ids hs) refl

-- The IDs of a Report or a RequestM are read back from its content.
pub extract_ids-id_list_content :
    (ids : List ℕ)
    → length ids < 2 ^ 64
    → All (λ id. id < 2 ^ 32) ids
    → extract_ids (id_list_content ids) ≡ some ids
unfolding extract_ids id_list_content
extract_ids-id_list_content ids h fits =
    rw (number_of-bytes 8 (length ids) (ids_bytes ids) (omega (arith, h)))
      (read_ids-ids_bytes ids fits)

abbrev pub Fits : LinkState → Type 0
Fits ls = (LinkState.neighbored_node_id ls < 2 ^ 31) × (LinkState.status ls < 2 ^ 31)

read_link_states-link_states_bytes :
    (ls_list : List LinkState)
    → All Fits ls_list
    → read_link_states (length ls_list) (link_states_bytes ls_list) ≡ some ls_list
unfolding read_link_states link_states_bytes
read_link_states-link_states_bytes [] h = refl
read_link_states-link_states_bytes (ls ∷ rest) ((h, g), hs) =
    let ls_bytes = bytes 4 (LinkState.status ls) ++ link_states_bytes rest in
    rw
      (
        number_of-bytes 4 (LinkState.neighbored_node_id ls) ls_bytes (omega (arith, h)),
        number_of-bytes 4 (LinkState.status ls) (link_states_bytes rest) (omega (arith, g)),
        read_link_states-link_states_bytes rest hs,
      )
      refl

pub extract_lsa-lsa_content :
    (ls_list : List LinkState)
    → length ls_list < 2 ^ 64
    → All Fits ls_list
    → extract_lsa (lsa_content ls_list) ≡ some ls_list
unfolding extract_lsa lsa_content
extract_lsa-lsa_content ls_list h fits =
    rw (number_of-bytes 8 (length ls_list) (link_states_bytes ls_list) (omega (arith, h)))
      (read_link_states-link_states_bytes ls_list fits)
