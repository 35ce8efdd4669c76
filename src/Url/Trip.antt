-- ===== src/Url/Trip.antt =====
-- A link that `build_url` makes is read back by `parse_url`.
use claude_todo.Prelude.{
  ℕ, ◌≡◌, refl, sym, ap, subst, ◌∙◌, inl, inr, true, false, Option, none, some, List, [], ◌∷◌, ◌++◌,
  ◌==◌, nat_eq, contains, contains-append, arith, Bool-cases,
}
use claude_todo.Url.{
  Text, text_eq, partition, split, lstrip, rstrip, is_hex, is_object_id, is_slash, Unicode,
  urlparse, parse_qsl, scheme_of, netloc_of, path_of, or_empty, normalise_path, of_stripped,
  any_bad, of_clean, of_scheme, of_netloc, of_query, pairs_of, pair_of, decoded, plus_to_space,
}
use claude_todo.Url.Ids.{
  is_object_id-contains, partition-none, partition-append, split-none, filter-clean,
}

-- None of the characters that end a path or are taken out of a URL.
pub record IsPlain (s : Text) : Type 0 where
  pub no_tab : contains s 9 ≡ false
  pub no_feed : contains s 10 ≡ false
  pub no_return : contains s 13 ≡ false
  pub no_hash : contains s b'#' ≡ false
  pub no_question : contains s b'?' ≡ false
  pub no_semicolon : contains s b';' ≡ false

pub IsPlain-append : (s t : Text) → IsPlain s → IsPlain t → IsPlain (s ++ t)
IsPlain-append s t h k = record {
  no_tab = ground (arith, contains-append s t 9, h.no_tab, k.no_tab);
  no_feed = ground (arith, contains-append s t 10, h.no_feed, k.no_feed);
  no_return = ground (arith, contains-append s t 13, h.no_return, k.no_return);
  no_hash = ground (arith, contains-append s t b'#', h.no_hash, k.no_hash);
  no_question = ground (arith, contains-append s t b'?', h.no_question, k.no_question);
  no_semicolon = ground (arith, contains-append s t b';', h.no_semicolon, k.no_semicolon);
}

-- What an id is, without the newline that `$` lets pass.
pub record IsId (s : Text) : Type 0 where
  pub valid : is_object_id s ≡ true
  pub no_newline : contains s 10 ≡ false

pub IsId-contains : (s : Text) (c : ℕ) → IsId s → is_hex c ≡ false → contains s c ≡ false
IsId-contains s c h k = elim (Bool-cases (c == 10)) [
  | inl same ↦ subst (λ x. contains s x ≡ false) (sym ((nat_eq.beq_iff c 10).0 same)) h.no_newline
  | inr other ↦
      is_object_id-contains s c h.valid k (λ e. absurd (cc ((nat_eq.beq_iff c 10).1 e, other)))
]

pub IsId-IsPlain : (s : Text) → IsId s → IsPlain s
IsId-IsPlain s h = record {
  no_tab = IsId-contains s 9 h refl;
  no_feed = h.no_newline;
  no_return = IsId-contains s 13 h refl;
  no_hash = IsId-contains s b'#' h refl;
  no_question = IsId-contains s b'?' h refl;
  no_semicolon = IsId-contains s b';' h refl;
}

lstrip-keeps : (c : ℕ) (cs : Text) → (c == b'/') ≡ false → lstrip is_slash (b'/' ∷ c ∷ cs) ≡ c ∷ cs
unfolding lstrip
lstrip-keeps c cs differ = rw differ refl

-- The segments of a path that ends with no slash.
pub normalise_path-some :
    (c : ℕ) (cs : Text) (segments : List Text)
    → (c == b'/') ≡ false
    → rstrip is_slash (c ∷ cs) ≡ c ∷ cs
    → split b'/' (c ∷ cs) ≡ segments
    → any_bad segments ≡ false
    → normalise_path (b'/' ∷ c ∷ cs) ≡ some segments
unfolding normalise_path
normalise_path-some c cs segments differ whole parts good =
    ap (λ s. of_stripped (rstrip is_slash s) (split b'/' (rstrip is_slash s)))
      (lstrip-keeps c cs differ)
    ∙ ap (λ s. of_stripped s (split b'/' s)) whole
    ∙ ap (of_stripped (c ∷ cs)) parts
    ∙ (rw good refl)

module _ (u : Unicode) where
  scheme_of-slash :
      (rest : Text) (p : Text × Option Text)
      → scheme_of (b'/' ∷ rest) (b'/' ∷ p.0, p.1) ≡ ([], b'/' ∷ rest)
  scheme_of-slash rest (before, none) = refl
  scheme_of-slash rest (before, some behind) = refl

  partition-slash :
      (rest : Text)
      → partition b':' (b'/' ∷ rest) ≡ (b'/' ∷ (partition b':' rest).0, (partition b':' rest).1)
  unfolding partition
  partition-slash rest = refl

  netloc_of-none :
      (c : ℕ) (cs : Text) → (c == b'/') ≡ false → netloc_of (b'/' ∷ c ∷ cs) ≡ ([], b'/' ∷ c ∷ cs)
  netloc_of-none c cs differ = rw differ refl

  path_of-plain : (s : Text) → contains s b';' ≡ false → path_of [] s ≡ s
  path_of-plain s h = rw h refl

  -- A URL without a host, whose parts behind `?` are given.
  pub urlparse-path :
      (c : ℕ) (cs path : Text) (query : Option Text)
      → (c == b'/') ≡ false
      → contains (c ∷ cs) 9 ≡ false
      → contains (c ∷ cs) 10 ≡ false
      → contains (c ∷ cs) 13 ≡ false
      → contains (c ∷ cs) b'#' ≡ false
      → contains path b';' ≡ false
      → partition b'?' (b'/' ∷ c ∷ cs) ≡ (path, query)
      → urlparse u (b'/' ∷ c ∷ cs)
        ≡ some (record { scheme = []; netloc = []; path = path; query = or_empty query })
  unfolding urlparse lstrip
  urlparse-path c cs path query differ tab feed ret hash semicolon parts =
      ap (of_clean u) (filter-clean (b'/' ∷ c ∷ cs) tab feed ret)
      ∙ ap (λ p. of_scheme u (scheme_of (b'/' ∷ c ∷ cs) p)) (partition-slash (c ∷ cs))
      ∙ ap (of_scheme u) (scheme_of-slash (c ∷ cs) (partition b':' (c ∷ cs)))
      ∙ ap (of_netloc u []) (netloc_of-none c cs differ)
      ∙ ap (λ p. of_query u [] [] (partition b'?' p.0)) (partition-none b'#' (b'/' ∷ c ∷ cs) hash)
      ∙ ap (of_query u [] []) parts
      ∙ (rw (u.netloc_none, path_of-plain path semicolon) refl)

  plus_to_space-none : (s : Text) → contains s b'+' ≡ false → plus_to_space u s ≡ s
  plus_to_space-none [] h = refl
  plus_to_space-none (x ∷ xs) h =
      let later = plus_to_space-none xs (ground (arith, h)) in
      let other : (x == b'+') ≡ false = ground (arith, h) in rw (other, later) refl

  decoded-none : (s : Text) → contains s b'+' ≡ false → contains s b'%' ≡ false → decoded u s ≡ s
  decoded-none s h k = ap u.unquote (plus_to_space-none s h) ∙ u.unquote_plain s k

  -- A query of one key and its value, neither of which has an escape.
  pub parse_qsl-one :
      (k : ℕ) (ks id : Text)
      → contains (k ∷ ks) b'&' ≡ false
      → contains (k ∷ ks) b'=' ≡ false
      → contains (k ∷ ks) b'+' ≡ false
      → contains (k ∷ ks) b'%' ≡ false
      → IsId id
      → parse_qsl u (k ∷ ks ++ b'=' ∷ id) ≡ (k ∷ ks, id) ∷ []
  unfolding parse_qsl
  parse_qsl-one k ks id a e p q h =
      let whole : contains (k ∷ ks ++ b'=' ∷ id) b'&' ≡ false =
        ground
          (arith, contains-append (k ∷ ks) (b'=' ∷ id) b'&', a, IsId-contains id b'&' h refl) in
      ap (pairs_of u) (split-none b'&' (k ∷ ks ++ b'=' ∷ id) whole)
      ∙ ap (λ t. pair_of u t ∷ []) (partition-append b'=' (k ∷ ks) id e)
      ∙ (rw
          (
            decoded-none (k ∷ ks) p q,
            decoded-none id (IsId-contains id b'+' h refl) (IsId-contains id b'%' h refl),
          )
          refl)
