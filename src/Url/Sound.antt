-- ===== src/Url/Sound.antt =====
-- What `parse_url` gives for any text.
use claude_todo.Prelude.{
  ◌≡◌, refl, ap, subst, ◌∙◌, ◌⊎◌, inl, inr, Bool, true, false, ◌&&◌, ◌||◌, Option, none, some, List,
  [], ◌∷◌, ◌++◌, ◌==◌, nat_eq, if◌then◌else◌, arith, Bool-cases, some_injective, sym, All,
}
use claude_todo.Url.{
  Text, text_eq, codes, is_object_id, Unicode, SplitResult, urlparse, parse_url, ParsedUrl,
  ResourceKind, plain, task, document, document_full, bookmark, knowledge, docsite_page, project,
  unknown, of_path, of_split, of_parsed, split_query, is_space, all_of, origin_allowed, Query,
  of_segments, of_pair, of_four, of_docsite, of_project, of_values, in_query, with_id,
  normalise_path,
}
use claude_todo.Url.Digits.{is_id, is_id_or_line, is_object_id-digits, is_object_id-exact}
use claude_todo.Url.Feeds.{NoFeed, SegmentsNoFeed, normalise_path-NoFeed, urlparse-NoFeed}

-- The fields that a kind has, and no other field. Each id is 24 hexadecimal digits; behind that of
-- `?task=` or `?doc=` a newline may stand.
abbrev pub fits_kind : ResourceKind → Option Text → Option Text → Option Text → Option Text → Bool
fits_kind task (some pid) (some rid) none none = is_id pid && is_id_or_line rid
fits_kind document (some pid) (some rid) none none = is_id pid && is_id_or_line rid
fits_kind document_full (some pid) (some rid) none none = is_id pid && is_id rid
fits_kind bookmark none (some rid) none none = is_id rid
fits_kind knowledge none (some rid) none none = is_id rid
fits_kind docsite_page none none (some path) (some sid) = is_id sid
fits_kind project (some pid) none none none = is_id pid
fits_kind unknown none none none none = true
fits_kind _ _ _ _ _ = false

abbrev pub fits : ParsedUrl → Bool
fits p = fits_kind p.kind p.project_id p.resource_id p.path p.site_id

-- An id from the path.
exact : (id : Text) → NoFeed id → is_object_id id ≡ true → is_id id ≡ true
exact id clean valid = sym (is_object_id-exact id clean) ∙ valid

in_query-fits :
    (kind : ResourceKind) (pid id : Text) (had : Bool)
    → (fits (record (plain kind had) { project_id = some pid; resource_id = some id })
        ≡ (is_id pid && is_id_or_line id))
    → is_id pid ≡ true
    → fits (in_query kind pid id had) ≡ true
in_query-fits kind pid id had e h = elim (Bool-cases (is_object_id id)) [
  | inl valid ↦
      let digits : is_id_or_line id ≡ true = sym (is_object_id-digits id) ∙ valid in
      rw valid (e ∙ rw (h, digits) refl)
  | inr other ↦ rw other h
]

of_values-fits :
    (pid : Text) (t d : Option Text) (had : Bool)
    → is_id pid ≡ true
    → fits (of_values pid t d had) ≡ true
of_values-fits pid (some tid) d had h = in_query-fits task pid tid had refl h
of_values-fits pid none (some did) had h = in_query-fits document pid did had refl h
of_values-fits pid none none had h = h

with_id-fits :
    (kind : ResourceKind) (id : Text) (had : Bool)
    → NoFeed id
    → (fits (record (plain kind had) { resource_id = some id }) ≡ is_id id)
    → fits (with_id kind id had) ≡ true
with_id-fits kind id had clean e = elim (Bool-cases (is_object_id id)) [
  | inl valid ↦ rw valid (e ∙ exact id clean valid)
  | inr other ↦ rw other refl
]

of_docsite-fits :
    (first sid : Text) (rest : List Text) (q : Query)
    → NoFeed sid
    → fits (of_docsite first sid rest q) ≡ true
of_docsite-fits first sid rest q clean = elim (Bool-cases (first == codes "docsites")) [
  | inr other ↦ rw other refl
  | inl docs ↦ elim (Bool-cases (is_object_id sid)) [
    | inl valid ↦ rw (docs, valid) (exact sid clean valid)
    | inr invalid ↦ rw (docs, invalid) refl
  ]
]

workbench-fits :
    (id : Text) (q : Query) (p : ParsedUrl)
    → NoFeed id
    → p ≡ (
        if is_object_id id
        then record (plain project q.had_unknown) {
          project_id = some id;
          redirect_to = some (codes "/projects/" ++ id);
        }
        else plain unknown q.had_unknown)
    → fits p ≡ true
workbench-fits id q p clean e = elim (Bool-cases (is_object_id id)) [
  | inl valid ↦ ap fits e ∙ (rw valid (exact id clean valid))
  | inr invalid ↦ ap fits e ∙ (rw invalid refl)
]

project-fits :
    (id : Text) (q : Query)
    → NoFeed id
    → fits (if is_object_id id then of_project id q else plain unknown q.had_unknown) ≡ true
project-fits id q clean = elim (Bool-cases (is_object_id id)) [
  | inl valid ↦
      rw valid (of_values-fits id q.task_value q.doc_value q.had_unknown (exact id clean valid))
  | inr invalid ↦ rw invalid refl
]

of_pair-fits : (first id : Text) (q : Query) → NoFeed id → fits (of_pair first id q) ≡ true
of_pair-fits first id q clean = elim (Bool-cases (first == codes "workbench")) [
  | inl is_workbench ↦ rw is_workbench (workbench-fits id q _ clean refl)
  | inr no_workbench ↦ elim (Bool-cases (first == codes "projects")) [
    | inl is_project ↦ rw (no_workbench, is_project) (project-fits id q clean)
    | inr no_project ↦ elim (Bool-cases (first == codes "bookmarks")) [
      | inl is_bookmark ↦
          rw (no_workbench, no_project, is_bookmark)
            (with_id-fits bookmark id q.had_unknown clean refl)
      | inr no_bookmark ↦ elim (Bool-cases (first == codes "knowledge")) [
        | inl is_knowledge ↦
            rw (no_workbench, no_project, no_bookmark, is_knowledge)
              (with_id-fits knowledge id q.had_unknown clean refl)
        | inr no_knowledge ↦ rw (no_workbench, no_project, no_bookmark, no_knowledge) refl
      ]
    ]
  ]
]

of_four-fits : (a b c d : Text) (q : Query) → NoFeed b → NoFeed d → fits (of_four a b c d q) ≡ true
of_four-fits a b c d q clean_b clean_d =
    elim (Bool-cases (a == codes "projects" && c == codes "documents")) [
      | inr other ↦ rw other (of_docsite-fits a b (c ∷ d ∷ []) q clean_b)
      | inl full ↦ elim (Bool-cases (is_object_id b && is_object_id d)) [
        | inl valid ↦
            let first : is_object_id b ≡ true = ground (arith, valid) in
            let second : is_object_id d ≡ true = ground (arith, valid) in
            let digits : is_id b ≡ true = exact b clean_b first in
            rw (full, valid) (rw digits (exact d clean_d second))
        | inr invalid ↦ rw (full, invalid) refl
      ]
    ]

of_segments-fits :
    (segments : List Text) (q : Query) → All NoFeed segments → fits (of_segments segments q) ≡ true
of_segments-fits [] q h = refl
of_segments-fits (a ∷ []) q h = refl
of_segments-fits (a ∷ b ∷ []) q h = of_pair-fits a b q h.1.0
of_segments-fits (a ∷ b ∷ c ∷ []) q h = of_docsite-fits a b (c ∷ []) q h.1.0
of_segments-fits (a ∷ b ∷ c ∷ d ∷ []) q h = of_four-fits a b c d q h.1.0 h.1.1.1.0
of_segments-fits (a ∷ b ∷ c ∷ d ∷ e ∷ rest) q h = of_docsite-fits a b (c ∷ d ∷ e ∷ rest) q h.1.0

of_path-fits : (o : Option (List Text)) (q : Query) → SegmentsNoFeed o → fits (of_path o q) ≡ true
of_path-fits none q h = refl
of_path-fits (some segments) q h = of_segments-fits segments q h

-- A URL whose host the application serves, or that has no scheme.
abbrev pub is_ours : SplitResult → Bool
is_ours parsed = parsed.scheme == [] || origin_allowed parsed

module _ (u : Unicode) where
  -- The text is read as a URL of ours.
  abbrev pub Served : Text → Type 0
  Served url = (parsed : SplitResult) × (urlparse u url ≡ some parsed) × (is_ours parsed ≡ true)

  of_split-fits :
      (parsed : SplitResult)
      → NoFeed parsed.path
      → (fits (of_split u parsed) ≡ true)
        × (((of_split u parsed).kind ≡ unknown) ⊎ (is_ours parsed ≡ true))
  of_split-fits parsed clean = elim (Bool-cases (parsed.scheme == [])) [
    | inl none_given ↦ simp none_given (
      of_path-fits (normalise_path parsed.path) (split_query u parsed.query)
          (normalise_path-NoFeed parsed.path clean),
      inr refl,
    )
    | inr given ↦ elim (Bool-cases (origin_allowed parsed)) [
      | inl allowed ↦
          simp (given, allowed)
            (
              of_path-fits (normalise_path parsed.path) (split_query u parsed.query)
                  (normalise_path-NoFeed parsed.path clean),
              inr refl,
            )
      | inr foreign ↦ simp (given, foreign) (refl, inl refl)
    ]
  ]

  -- Whatever text it reads, `parse_url` gives exactly the fields of the kind, and a kind other than
  -- `unknown` only for a URL that has no scheme or whose host is allowed. Each id that it takes from
  -- the path is 24 characters of `0123456789abcdef`; the id of a task or a document that it takes
  -- from the query is so too, but for a newline that may stand behind it.
  pub parse_url-fits :
      (url : Text) (p : ParsedUrl)
      → parse_url u url ≡ some p
      → (fits p ≡ true) × ((p.kind ≡ unknown) ⊎ Served url)
  unfolding parse_url
  parse_url-fits url p h = go (all_of is_space url) (urlparse u url) refl h
    where
      go :
          (blank : Bool) (o : Option SplitResult)
          → urlparse u url ≡ o
          → (if blank then some (plain unknown false) else of_parsed u o) ≡ some p
          → (fits p ≡ true) × ((p.kind ≡ unknown) ⊎ Served url)
      go true o at e =
          subst (λ r. (fits r ≡ true) × ((r.kind ≡ unknown) ⊎ Served url)) (some_injective e)
            (refl, inl refl)
      go false none at e = cc
      go false (some parsed) at e =
          let clean = urlparse-NoFeed u url parsed at in
          subst (λ r. (fits r ≡ true) × ((r.kind ≡ unknown) ⊎ Served url)) (some_injective e)
            (elim (of_split-fits parsed clean).1 [
              | inl is_unknown ↦ ((of_split-fits parsed clean).0, inl is_unknown)
              | inr ours ↦ ((of_split-fits parsed clean).0, inr (parsed, at, ours))
            ])
