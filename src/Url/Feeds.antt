-- ===== src/Url/Feeds.antt =====
-- No newline of a URL gets to the segments of its path: `urlparse` takes them all out, and the path
-- is not decoded.
use claude_todo.Prelude.{
  ℕ, ◌≡◌, refl, ap, ◌∙◌, inl, inr, Bool, false, not, ◌&&◌, ◌||◌, Option, none, some, List, [], ◌∷◌,
  ◌==◌, nat_eq, if◌then◌else◌, contains, contains-append, filter, arith, Bool-cases, All, subst,
  some_injective,
}
use claude_todo.Url.{
  Text, text_eq, partition, split, join, lstrip, rstrip, is_slash, of_stripped, any_bad,
  normalise_path, Unicode, SplitResult, urlparse,
}
use claude_todo.Url.Strings.{all_of, is_lower, is_upper}
use claude_todo.Url.Stdlib.{
  is_removed, is_control_or_space, is_scheme_char, scheme_of, split_netloc, netloc_of, uses_params,
  cut_params, path_of, of_query,
}

abbrev pub NoFeed : Text → Type 0
NoFeed s = contains s 10 ≡ false

abbrev pub NoFeedIn : Option Text → Type 0
NoFeedIn none = Unit
NoFeedIn (some s) = NoFeed s

filter-NoFeed : (s : Text) → NoFeed (filter (λ c. not (is_removed c)) s)
filter-NoFeed [] = refl
filter-NoFeed (c ∷ cs) = ground (arith, filter-NoFeed cs)

partition-NoFeed :
    (c : ℕ) (s : Text) → NoFeed s → NoFeed (partition c s).0 × NoFeedIn (partition c s).1
unfolding partition
partition-NoFeed c [] h = (refl, tt)
partition-NoFeed c (x ∷ xs) h =
    let later = partition-NoFeed c xs (ground (arith, h)) in
    elim (Bool-cases (x == c)) [
      | inl same ↦ rw same (refl, ground (arith, h))
      | inr other ↦ rw other (ground (arith, h, later.0), later.1)
    ]

scheme_of-NoFeed :
    (url : Text) (p : Text × Option Text) → NoFeed url → NoFeedIn p.1 → NoFeed (scheme_of url p).1
scheme_of-NoFeed url (before, none) h k = h
scheme_of-NoFeed url ([], some behind) h k = h
scheme_of-NoFeed url (c ∷ cs, some behind) h k =
    elim (Bool-cases ((is_lower c || is_upper c) && all_of is_scheme_char (c ∷ cs))) [
      | inl scheme ↦ rw scheme k
      | inr other ↦ rw other h
    ]

split_netloc-NoFeed : (s : Text) → NoFeed s → NoFeed (split_netloc s).1
unfolding split_netloc
split_netloc-NoFeed [] h = refl
split_netloc-NoFeed (c ∷ cs) h =
    let later = split_netloc-NoFeed cs (ground (arith, h)) in
    elim (Bool-cases (c == b'/' || c == b'?' || c == b'#')) [
      | inl ends ↦ rw ends h
      | inr goes ↦ rw goes later
    ]

netloc_of-NoFeed : (s : Text) → NoFeed s → NoFeed (netloc_of s).1
netloc_of-NoFeed [] h = refl
netloc_of-NoFeed (a ∷ []) h = h
netloc_of-NoFeed (a ∷ b ∷ cs) h = elim (Bool-cases (a == b'/' && b == b'/')) [
  | inl host ↦ rw host (split_netloc-NoFeed cs (ground (arith, h)))
  | inr other ↦ rw other h
]

split-NoFeed : (c : ℕ) (s : Text) → NoFeed s → All NoFeed (split c s)
unfolding split
split-NoFeed c [] h = (refl, tt)
split-NoFeed c (x ∷ xs) h =
    let later = split-NoFeed c xs (ground (arith, h)) in
    elim (Bool-cases (x == c)) [
      | inl same ↦ rw same (refl, later)
      | inr other ↦ rw other (put x (split c xs) (ground (arith, h)) later)
    ]
  where
    put :
        (y : ℕ) (ss : List Text)
        → (y == 10) ≡ false
        → All NoFeed ss
        → All NoFeed
            (elim ss [ [] ↦ (y ∷ []) ∷ [] | segment ∷ segments ↦ (y ∷ segment) ∷ segments ])
    put y [] e k = (ground (arith, e), tt)
    put y (segment ∷ segments) e k = (ground (arith, e, k.0), k.1)

join-NoFeed : (ss : List Text) → All NoFeed ss → NoFeed (join b'/' ss)
join-NoFeed [] h = refl
join-NoFeed (s ∷ []) h = h.0
join-NoFeed (s ∷ t ∷ ss) h =
    contains-append s (b'/' ∷ join b'/' (t ∷ ss)) 10 ∙ ground (arith, h.0, join-NoFeed (t ∷ ss) h.1)

cut_params-NoFeed : (ss : List Text) → All NoFeed ss → All NoFeed (cut_params ss)
cut_params-NoFeed [] h = tt
cut_params-NoFeed (s ∷ []) h = ((partition-NoFeed b';' s h.0).0, tt)
cut_params-NoFeed (s ∷ t ∷ ss) h = (h.0, cut_params-NoFeed (t ∷ ss) h.1)

path_of-NoFeed : (scheme url : Text) → NoFeed url → NoFeed (path_of scheme url)
path_of-NoFeed scheme url h = elim (Bool-cases (contains uses_params scheme && contains url b';')) [
  | inl cut ↦ rw cut (join-NoFeed _ (cut_params-NoFeed (split b'/' url) (split-NoFeed b'/' url h)))
  | inr whole ↦ rw whole h
]

lstrip-NoFeed : (p : ℕ → Bool) (s : Text) → NoFeed s → NoFeed (lstrip p s)
unfolding lstrip
lstrip-NoFeed p [] h = refl
lstrip-NoFeed p (x ∷ xs) h =
    let later = lstrip-NoFeed p xs (ground (arith, h)) in
    elim (Bool-cases (p x)) [ inl off ↦ rw off later | inr on ↦ rw on h ]

rstrip-NoFeed : (p : ℕ → Bool) (s : Text) → NoFeed s → NoFeed (rstrip p s)
unfolding rstrip
rstrip-NoFeed p [] h = refl
rstrip-NoFeed p (x ∷ xs) h = keep (rstrip p xs) (rstrip-NoFeed p xs (ground (arith, h)))
  where
    keep :
        (r : Text)
        → NoFeed r
        → NoFeed (elim r [ [] ↦ if p x then [] else x ∷ [] | y ∷ ys ↦ x ∷ y ∷ ys ])
    keep [] k = ground (arith, h)
    keep (y ∷ ys) k = ground (arith, h, k)

abbrev pub SegmentsNoFeed : Option (List Text) → Type 0
SegmentsNoFeed none = Unit
SegmentsNoFeed (some segments) = All NoFeed segments

pub normalise_path-NoFeed : (path : Text) → NoFeed path → SegmentsNoFeed (normalise_path path)
unfolding normalise_path
normalise_path-NoFeed path h =
    let clean = rstrip-NoFeed is_slash (lstrip is_slash path) (lstrip-NoFeed is_slash path h) in
    go (rstrip is_slash (lstrip is_slash path)) _
      (split-NoFeed b'/' (rstrip is_slash (lstrip is_slash path)) clean)
  where
    go :
        (s : Text) (segments : List Text)
        → All NoFeed segments
        → SegmentsNoFeed (of_stripped s segments)
    go [] segments k = tt
    go (c ∷ cs) segments k = elim (Bool-cases (any_bad segments)) [
      | inl bad ↦ rw bad tt
      | inr good ↦ rw good k
    ]

module _ (u : Unicode) where
  of_query-NoFeed :
      (scheme netloc : Text) (p : Text × Option Text) (parsed : SplitResult)
      → NoFeed p.0
      → of_query u scheme netloc p ≡ some parsed
      → NoFeed parsed.path
  of_query-NoFeed scheme netloc (unmarked, query) parsed h e =
      elim (Bool-cases (u.netloc_ok netloc)) [
        | inl fine ↦
            subst NoFeed (ap (λ (x : SplitResult). x.path) (some_injective (rw fine at e)))
              (path_of-NoFeed scheme unmarked h)
        | inr bad ↦ cc (rw bad at e)
      ]

  pub urlparse-NoFeed :
      (url : Text) (parsed : SplitResult) → urlparse u url ≡ some parsed → NoFeed parsed.path
  unfolding urlparse
  urlparse-NoFeed url parsed e =
      let clean : Text = filter (λ c. not (is_removed c)) (lstrip is_control_or_space url) in
      let none_left = filter-NoFeed (lstrip is_control_or_space url) in
      let behind : Text × Text = scheme_of clean (partition b':' clean) in
      let host : Text × Text = netloc_of behind.1 in
      let rest = netloc_of-NoFeed behind.1 (
        scheme_of-NoFeed clean (partition b':' clean) none_left
          (partition-NoFeed b':' clean none_left).1) in
      let body = (partition-NoFeed b'#' host.1 rest).0 in
      of_query-NoFeed behind.0 host.0 (partition b'?' (partition b'#' host.1).0) parsed
        (partition-NoFeed b'?' (partition b'#' host.1).0 body).0 e
