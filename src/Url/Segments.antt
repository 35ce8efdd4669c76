-- ===== src/Url/Segments.antt =====
-- Paths that are made of segments, as `parse_url` reads them.
use claude_todo.Prelude.{
  ℕ, ◌≡◌, ◌≢◌, refl, sym, ap, subst, ◌∙◌, Bool, true, false, not, ◌&&◌, Option, none, some, List,
  [], ◌∷◌, ◌++◌, ◌==◌, nat_eq, contains, contains-append, arith, All,
}
use claude_todo.Url.{
  Text, text_eq, codes, partition, split, join, rstrip, hex_run, is_object_id, is_slash,
  is_bad_segment, Unicode, parse_url, or_empty, normalise_path, any_bad, of_path, of_parsed,
  split_query, of_segments,
}
use claude_todo.Url.Ids.{partition-none, partition-append, split-join, rstrip-append, contains-All}
use claude_todo.Url.Trip.{
  IsPlain, IsPlain-append, IsId, IsId-contains, IsId-IsPlain, urlparse-path, normalise_path-some,
}

-- What stands between two slashes of a path.
pub record IsSegment (s : Text) : Type 0 where
  pub no_slash : contains s b'/' ≡ false
  pub good : is_bad_segment s ≡ false
  pub plain : IsPlain s

is_object_id-long : (s : Text) → is_object_id s ≡ true → is_bad_segment s ≡ false
unfolding is_object_id hex_run
is_object_id-long [] h = cc
is_object_id-long (x ∷ []) h = ground (arith, h)
is_object_id-long (x ∷ y ∷ []) h = ground (arith, h)
is_object_id-long (x ∷ y ∷ z ∷ zs) h = ground arith

pub IsId-IsSegment : (s : Text) → IsId s → IsSegment s
IsId-IsSegment s h = record {
  no_slash = IsId-contains s b'/' h refl;
  good = is_object_id-long s h.valid;
  plain = IsId-IsPlain s h;
}

-- A segment by test, for the words of a path.
abbrev pub is_word : Text → Bool
is_word s =
    not (is_bad_segment s)
    && not (contains s b'/')
    && not (contains s 9)
    && not (contains s 10)
    && not (contains s 13)
    && not (contains s b'#')
    && not (contains s b'?')
    && not (contains s b';')

pub word-IsSegment : (s : Text) → is_word s ≡ true → IsSegment s
word-IsSegment s h = record {
  no_slash = ground (arith, h);
  good = ground (arith, h);
  plain = record {
    no_tab = ground (arith, h);
    no_feed = ground (arith, h);
    no_return = ground (arith, h);
    no_hash = ground (arith, h);
    no_question = ground (arith, h);
    no_semicolon = ground (arith, h);
  };
}

pub join_head :
    (c : ℕ) (cs : Text) (ss : List Text) → join b'/' ((c ∷ cs) ∷ ss) ≡ c ∷ join b'/' (cs ∷ ss)
join_head c cs [] = refl
join_head c cs (t ∷ ts) = refl

pub segments-no_slash : (ss : List Text) → All IsSegment ss → All (λ x. contains x b'/' ≡ false) ss
segments-no_slash [] h = tt
segments-no_slash (s ∷ ss) h = (h.0.no_slash, segments-no_slash ss h.1)

segments-good : (ss : List Text) → All IsSegment ss → any_bad ss ≡ false
segments-good [] h = refl
segments-good (s ∷ ss) h = ground (arith, h.0.good, segments-good ss h.1)

slash-IsPlain : IsPlain (b'/' ∷ [])
slash-IsPlain = record {
  no_tab = refl;
  no_feed = refl;
  no_return = refl;
  no_hash = refl;
  no_question = refl;
  no_semicolon = refl;
}

join-IsPlain : (s : Text) (ss : List Text) → All IsSegment (s ∷ ss) → IsPlain (join b'/' (s ∷ ss))
join-IsPlain s [] h = h.0.plain
join-IsPlain s (t ∷ ts) h =
    IsPlain-append s (b'/' ∷ join b'/' (t ∷ ts)) h.0.plain
      (IsPlain-append (b'/' ∷ []) (join b'/' (t ∷ ts)) slash-IsPlain (join-IsPlain t ts h.1))

rstrip-keeps :
    (p : ℕ → Bool) (xs ys : Text) → ys ≢ [] → rstrip p ys ≡ ys → rstrip p (xs ++ ys) ≡ xs ++ ys
unfolding rstrip
rstrip-keeps p [] ys some_left h = h
rstrip-keeps p (x ∷ []) [] some_left h = absurd (some_left refl)
rstrip-keeps p (x ∷ []) (y ∷ ys) some_left h = rw h refl
rstrip-keeps p (x ∷ w ∷ ws) ys some_left h = rw (rstrip-keeps p (w ∷ ws) ys some_left h) refl

join-rstrip :
    (s : Text) (ss : List Text)
    → All IsSegment (s ∷ ss)
    → rstrip is_slash (join b'/' (s ∷ ss)) ≡ join b'/' (s ∷ ss)
unfolding rstrip
join-rstrip [] [] h = refl
join-rstrip (c ∷ cs) [] h = rstrip-append is_slash [] c cs (contains-All (c ∷ cs) b'/' h.0.no_slash)
join-rstrip s ([] ∷ ts) h = absurd (cc h.1.0.good)
join-rstrip s ((d ∷ ds) ∷ ts) h =
    let later = join-rstrip (d ∷ ds) ts h.1 in
    rstrip-keeps is_slash s (b'/' ∷ join b'/' ((d ∷ ds) ∷ ts)) (λ e. cc)
      (rstrip-keeps is_slash (b'/' ∷ []) (join b'/' ((d ∷ ds) ∷ ts))
        (λ e. cc (sym (join_head d ds ts), e)) later)

-- The path is read as its segments, whatever the query.
pub normalise_path-join :
    (c : ℕ) (cs : Text) (ss : List Text)
    → All IsSegment ((c ∷ cs) ∷ ss)
    → normalise_path (b'/' ∷ join b'/' ((c ∷ cs) ∷ ss)) ≡ some ((c ∷ cs) ∷ ss)
normalise_path-join c cs ss h =
    ap (λ t. normalise_path (b'/' ∷ t)) (join_head c cs ss)
    ∙ normalise_path-some c (join b'/' (cs ∷ ss)) ((c ∷ cs) ∷ ss) (ground (arith, h.0.no_slash))
        (subst (λ t. rstrip is_slash t ≡ t) (join_head c cs ss) (join-rstrip (c ∷ cs) ss h))
        (ap (split b'/') (sym (join_head c cs ss))
          ∙ split-join b'/' (c ∷ cs) ss (segments-no_slash ((c ∷ cs) ∷ ss) h))
        (segments-good ((c ∷ cs) ∷ ss) h)

pub record IsQuery (q : Text) : Type 0 where
  pub no_tab : contains q 9 ≡ false
  pub no_feed : contains q 10 ≡ false
  pub no_return : contains q 13 ≡ false
  pub no_hash : contains q b'#' ≡ false

module _ (u : Unicode) where
  after_slash :
      (c : ℕ) (cs path : Text) (query : Option Text) (segments : List Text)
      → (c == b'/') ≡ false
      → IsQuery (c ∷ cs)
      → contains path b';' ≡ false
      → partition b'?' (b'/' ∷ c ∷ cs) ≡ (path, query)
      → normalise_path path ≡ some segments
      → parse_url u (b'/' ∷ c ∷ cs) ≡ some (of_segments segments (split_query u (or_empty query)))
  unfolding parse_url
  after_slash c cs path query segments differ h semicolon parts found =
      ap (of_parsed u) (
        urlparse-path u c cs path query differ h.no_tab h.no_feed h.no_return h.no_hash semicolon
          parts)
      ∙ ap (λ o. some (of_path o (split_query u (or_empty query)))) found

  -- A path without a query.
  pub parse_url-path :
      (c : ℕ) (cs : Text) (ss : List Text)
      → All IsSegment ((c ∷ cs) ∷ ss)
      → parse_url u (b'/' ∷ join b'/' ((c ∷ cs) ∷ ss))
        ≡ some (of_segments ((c ∷ cs) ∷ ss) (split_query u []))
  parse_url-path c cs ss h =
      let p = join-IsPlain (c ∷ cs) ss h in
      let q = subst IsPlain (join_head c cs ss) p in
      ap (λ t. parse_url u (b'/' ∷ t)) (join_head c cs ss)
      ∙ after_slash c (join b'/' (cs ∷ ss)) (b'/' ∷ c ∷ join b'/' (cs ∷ ss)) none ((c ∷ cs) ∷ ss)
          (ground (arith, h.0.no_slash))
          (record {
            no_tab = q.no_tab;
            no_feed = q.no_feed;
            no_return = q.no_return;
            no_hash = q.no_hash;
          })
          (ground (arith, q.no_semicolon))
          (partition-none b'?' (b'/' ∷ c ∷ join b'/' (cs ∷ ss)) (ground (arith, q.no_question)))
          (ap (λ t. normalise_path (b'/' ∷ t)) (sym (join_head c cs ss))
            ∙ normalise_path-join c cs ss h)

  -- The path of a project with a query.
  pub parse_url-query :
      (id query : Text)
      → IsId id
      → IsQuery query
      → parse_url u (codes "/projects/" ++ id ++ b'?' ∷ query)
        ≡ some (of_segments (codes "projects" ∷ id ∷ []) (split_query u query))
  parse_url-query id query k q =
      let p = IsId-IsPlain id k in
      after_slash b'p' (codes "rojects/" ++ id ++ b'?' ∷ query) (codes "/projects/" ++ id)
        (some query) (codes "projects" ∷ id ∷ []) refl
        (record {
          no_tab = ground (arith, contains-append id (b'?' ∷ query) 9, p.no_tab, q.no_tab);
          no_feed = ground (arith, contains-append id (b'?' ∷ query) 10, p.no_feed, q.no_feed);
          no_return =
              ground (arith, contains-append id (b'?' ∷ query) 13, p.no_return, q.no_return);
          no_hash = ground (arith, contains-append id (b'?' ∷ query) b'#', p.no_hash, q.no_hash);
        })
        p.no_semicolon (partition-append b'?' (codes "/projects/" ++ id) query p.no_question)
        (normalise_path-join b'p' (codes "rojects") (id ∷ [])
          (word-IsSegment (codes "projects") refl, (IsId-IsSegment id k, tt)))
