-- ===== src/Url/Stdlib.antt =====
-- `urllib.parse` of the standard library, as backend/app/lib/url_contract.py uses it: `urlparse`
-- with the host name, and `parse_qsl` that keeps blank values. Two parts of them are parameters: the
-- checks of a host that has brackets or is not ASCII, and the decoding of `%` escapes.
use claude_todo.Prelude.{
  ℕ, ◌≡◌, Bool, true, false, not, ◌&&◌, ◌||◌, Option, none, some, List, [], ◌∷◌, ◌+◌, map, ◌==◌,
  nat_eq, if◌then◌else◌, leb, contains, filter,
}
use claude_todo.Url.Strings.{
  Text, codes, text_eq, partition, split, join, lstrip, all_of, is_lower, is_upper, is_digit,
}

-- No host is a valid one, and `unquote` leaves a text without `%` as it is.
pub record Unicode : Type 0 where
  pub netloc_ok : Text → Bool
  pub netloc_none : netloc_ok [] ≡ true
  pub unquote : Text → Text
  pub unquote_plain : (s : Text) → contains s b'%' ≡ false → unquote s ≡ s

pub record SplitResult : Type 0 where
  pub scheme : Text
  pub netloc : Text
  pub path : Text
  pub query : Text

abbrev pub is_removed : ℕ → Bool
is_removed c = c == 9 || c == 10 || c == 13

abbrev pub is_control_or_space : ℕ → Bool
is_control_or_space c = leb c 32

abbrev pub is_scheme_char : ℕ → Bool
is_scheme_char c = is_lower c || is_upper c || is_digit c || c == b'+' || c == b'-' || c == b'.'

abbrev pub lower : Text → Text
lower s = map (λ c. if is_upper c then c + 32 else c) s

-- The scheme, where the text before the first colon is one, and the rest.
abbrev pub scheme_of : Text → Text × Option Text → Text × Text
scheme_of url (before, none) = ([], url)
scheme_of url ([], some behind) = ([], url)
scheme_of url (c ∷ cs, some behind) =
    if (is_lower c || is_upper c) && all_of is_scheme_char (c ∷ cs)
    then (lower (c ∷ cs), behind)
    else ([], url)

-- The host of `//host`, which ends at the first of `/?#`.
unfoldable pub split_netloc : Text → Text × Text
split_netloc [] = ([], [])
split_netloc (c ∷ cs) =
    let (netloc, rest) = split_netloc cs in
    if c == b'/' || c == b'?' || c == b'#' then ([], c ∷ cs) else (c ∷ netloc, rest)

abbrev pub netloc_of : Text → Text × Text
netloc_of [] = ([], [])
netloc_of (a ∷ []) = ([], a ∷ [])
netloc_of (a ∷ b ∷ cs) = if a == b'/' && b == b'/' then split_netloc cs else ([], a ∷ b ∷ cs)

abbrev pub or_empty : Option Text → Text
or_empty none = []
or_empty (some s) = s

-- The schemes whose paths have parameters behind `;`.
abbrev pub uses_params : List Text
uses_params =
    []
    ∷ map codes (
        "ftp" ∷ "hdl" ∷ "prospero" ∷ "http" ∷ "https" ∷ "shttp" ∷ "rtsp" ∷ "rtsps" ∷ "rtspu" ∷ "sip"
        ∷ "sips" ∷ "mms" ∷ "sftp" ∷ "tel" ∷ [])

-- `_splitparams`: the parameters of the last segment are cut off.
abbrev pub cut_params : List Text → List Text
cut_params [] = []
cut_params (last ∷ []) = (partition b';' last).0 ∷ []
cut_params (segment ∷ next ∷ segments) = segment ∷ cut_params (next ∷ segments)

abbrev pub path_of : Text → Text → Text
path_of scheme url =
    if contains uses_params scheme && contains url b';'
    then join b'/' (cut_params (split b'/' url))
    else url

module _ (u : Unicode) where
  -- `none` where `urlparse` raises ValueError.
  abbrev pub of_query : Text → Text → Text × Option Text → Option SplitResult
  of_query scheme netloc (unmarked, query) =
      if u.netloc_ok netloc
      then some (record {
        scheme = scheme;
        netloc = netloc;
        path = path_of scheme unmarked;
        query = or_empty query;
      })
      else none

  abbrev pub of_netloc : Text → Text × Text → Option SplitResult
  of_netloc scheme (netloc, rest) = of_query scheme netloc (partition b'?' (partition b'#' rest).0)

  abbrev pub of_scheme : Text × Text → Option SplitResult
  of_scheme (scheme, behind) = of_netloc scheme (netloc_of behind)

  abbrev pub of_clean : Text → Option SplitResult
  of_clean clean = of_scheme (scheme_of clean (partition b':' clean))

  unfoldable pub urlparse : Text → Option SplitResult
  unfolding partition lstrip split_netloc split
  urlparse url = of_clean (filter (λ c. not (is_removed c)) (lstrip is_control_or_space url))

  abbrev pub plus_to_space : Text → Text
  plus_to_space s = map (λ c. if c == b'+' then 32 else c) s

  abbrev pub decoded : Text → Text
  decoded s = u.unquote (plus_to_space s)

  abbrev pub pair_of : Text × Option Text → Text × Text
  pair_of (name, value) = (decoded name, decoded (or_empty value))

  abbrev pub pairs_of : List Text → List (Text × Text)
  pairs_of [] = []
  pairs_of ([] ∷ rest) = pairs_of rest
  pairs_of ((c ∷ cs) ∷ rest) = pair_of (partition b'=' (c ∷ cs)) ∷ pairs_of rest

  unfoldable pub parse_qsl : Text → List (Text × Text)
  unfolding partition split
  parse_qsl query = pairs_of (split b'&' query)

-- `rpartition('@')[2]`
unfoldable pub after_last : ℕ → Text → Text
after_last c [] = []
after_last c (x ∷ xs) =
    let later = after_last c xs in if contains xs c then later else if x == c then xs else x ∷ xs

abbrev pub host_part : Text → Text × Option Text → Text
host_part info (before, some bracketed) = (partition b']' bracketed).0
host_part info (before, none) = (partition b':' info).0

-- `hostname`, in lower case; no name is the empty text.
unfoldable pub hostname : SplitResult → Text
unfolding partition after_last
hostname s = let info = after_last b'@' s.netloc in lower (host_part info (partition b'[' info))
