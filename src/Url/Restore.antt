-- ===== src/Url/Restore.antt =====
-- What `build_url` makes is read back by `parse_url`.
use claude_todo.Prelude.{
  ℕ, ◌≡◌, refl, sym, ap, ◌∙◌, true, false, none, some, List, [], ◌∷◌, ◌++◌, ◌==◌, nat_eq, contains,
  contains-append, arith, All,
}
use claude_todo.Url.{
  Text, text_eq, codes, split, join, hex_run, is_object_id, Unicode, parse_qsl, parse_url,
  build_url, ParsedUrl, plain, task, document, document_full, bookmark, knowledge, docsite_page,
  project, split_query, require_id, require_path, has_traversal, Query, of_segments, add_pairs,
}
use claude_todo.Url.Ids.{split-join}
use claude_todo.Url.Trip.{IsId, IsId-IsPlain, parse_qsl-one}
use claude_todo.Url.Segments.{
  IsSegment, IsId-IsSegment, word-IsSegment, is_word, IsQuery, parse_url-path, parse_url-query,
  segments-no_slash, join_head,
}

-- The links of the application, with the fields that `parse_url` gives.
pub data IsLink : ParsedUrl → Type 0 where
  task_link :
      (pid rid : Text)
      → IsId pid
      → IsId rid
      → IsLink (record (plain task false) { project_id = some pid; resource_id = some rid })
  document_link :
      (pid rid : Text)
      → IsId pid
      → IsId rid
      → IsLink (record (plain document false) { project_id = some pid; resource_id = some rid })
  full_link :
      (pid rid : Text)
      → IsId pid
      → IsId rid
      → IsLink
          (record (plain document_full false) { project_id = some pid; resource_id = some rid })
  bookmark_link :
      (rid : Text) → IsId rid → IsLink (record (plain bookmark false) { resource_id = some rid })
  knowledge_link :
      (rid : Text) → IsId rid → IsLink (record (plain knowledge false) { resource_id = some rid })
  docsite_link :
      (sid page : Text) (pages : List Text)
      → IsId sid
      → All IsSegment (page ∷ pages)
      → IsLink (record (plain docsite_page false) {
        site_id = some sid;
        path = some (join b'/' (page ∷ pages));
      })
  project_link :
      (pid : Text) → IsId pid → IsLink (record (plain project false) { project_id = some pid })

no_id : is_object_id [] ≡ false
unfolding is_object_id hex_run
no_id = refl

require_id-IsId : (id : Text) → IsId id → require_id (some id) ≡ some id
require_id-IsId id h = go id h.valid
  where
    go : (s : Text) → is_object_id s ≡ true → require_id (some s) ≡ some s
    go [] e = cc (no_id, e)
    go (c ∷ cs) e = rw e refl

has_traversal-good : (ss : List Text) → All IsSegment ss → has_traversal ss ≡ false
has_traversal-good [] h = refl
has_traversal-good ([] ∷ []) h = refl
has_traversal-good ((x ∷ []) ∷ []) h = ground (arith, h.0.good)
has_traversal-good ((x ∷ y ∷ []) ∷ []) h = ground (arith, h.0.good, h.0.plain.no_feed)
has_traversal-good ((x ∷ y ∷ z ∷ []) ∷ []) h = ground (arith, h.0.good, h.0.plain.no_feed)
has_traversal-good ((x ∷ y ∷ z ∷ w ∷ ws) ∷ []) h = ground arith
has_traversal-good (s ∷ t ∷ ts) h = ground (arith, h.0.good, has_traversal-good (t ∷ ts) h.1)

abbrev no_query : Query
no_query = record { task_value = none; doc_value = none; had_unknown = false }

require_path-join :
    (s : Text) (ss : List Text)
    → All IsSegment (s ∷ ss)
    → require_path (some (join b'/' (s ∷ ss))) ≡ some (join b'/' (s ∷ ss))
require_path-join [] ss h = absurd (cc h.0.good)
require_path-join (c ∷ cs) ss h =
    let whole = split-join b'/' (c ∷ cs) ss (segments-no_slash ((c ∷ cs) ∷ ss) h) in
    let first : (c == b'/') ≡ false = ground (arith, h.0.no_slash) in
    ap (λ t. require_path (some t)) (join_head c cs ss)
    ∙ (rw
        (
          ap (split b'/') (sym (join_head c cs ss)) ∙ whole,
          has_traversal-good ((c ∷ cs) ∷ ss) h,
          first,
        )
        refl)
    ∙ ap some (sym (join_head c cs ss))

-- Behind the word `docsites` any segments are a page.
of_segments-docsites :
    (sid page : Text) (pages : List Text)
    → IsId sid
    → of_segments (codes "docsites" ∷ sid ∷ page ∷ pages) no_query
      ≡ record (plain docsite_page false) {
        site_id = some sid;
        path = some (join b'/' (page ∷ pages));
      }
of_segments-docsites sid page [] h = rw h.valid refl
of_segments-docsites sid page (a ∷ []) h = rw h.valid refl
of_segments-docsites sid page (a ∷ b ∷ rest) h = rw h.valid refl

-- A query of one key is clean where its key is.
IsId-IsQuery : (key id : Text) → is_word key ≡ true → IsId id → IsQuery (key ++ id)
IsId-IsQuery key id h k =
    let p = IsId-IsPlain id k in
    record {
      no_tab = ground (arith, contains-append key id 9, p.no_tab, h);
      no_feed = ground (arith, contains-append key id 10, p.no_feed, h);
      no_return = ground (arith, contains-append key id 13, p.no_return, h);
      no_hash = ground (arith, contains-append key id b'#', p.no_hash, h);
    }

module _ (u : Unicode) where
  query_one :
      (k : ℕ) (ks id : Text)
      → contains (k ∷ ks) b'&' ≡ false
      → contains (k ∷ ks) b'=' ≡ false
      → contains (k ∷ ks) b'+' ≡ false
      → contains (k ∷ ks) b'%' ≡ false
      → IsId id
      → split_query u (k ∷ ks ++ b'=' ∷ id) ≡ add_pairs no_query ((k ∷ ks, id) ∷ [])
  query_one k ks id a e p q h = ap (add_pairs no_query) (parse_qsl-one u k ks id a e p q h)

  split_query-none : split_query u [] ≡ no_query
  unfolding parse_qsl split
  split_query-none = refl

  -- `build_url` of the fields of a link makes a URL, and `parse_url` of it gives these fields back.
  pub parse_url-build_url :
      (p : ParsedUrl)
      → IsLink p
      → (url : Text) × (build_url p.kind p.project_id p.resource_id p.path p.site_id ≡ some url)
        × (parse_url u url ≡ some p)
  unfolding build_url
  parse_url-build_url _ (task_link pid rid h k) = (
    codes "/projects/" ++ (pid ++ (codes "?task=" ++ rid)),
    rw (require_id-IsId pid h, require_id-IsId rid k) refl,
    parse_url-query u pid (codes "task=" ++ rid) h (IsId-IsQuery (codes "task=") rid refl k)
        ∙ ap (λ q. some (of_segments (codes "projects" ∷ pid ∷ []) q))
            (query_one b't' (codes "ask") rid refl refl refl refl k)
        ∙ (rw (h.valid, k.valid) refl),
  )
  parse_url-build_url _ (document_link pid rid h k) = (
    codes "/projects/" ++ (pid ++ (codes "?doc=" ++ rid)),
    rw (require_id-IsId pid h, require_id-IsId rid k) refl,
    parse_url-query u pid (codes "doc=" ++ rid) h (IsId-IsQuery (codes "doc=") rid refl k)
        ∙ ap (λ q. some (of_segments (codes "projects" ∷ pid ∷ []) q))
            (query_one b'd' (codes "oc") rid refl refl refl refl k)
        ∙ (rw (h.valid, k.valid) refl),
  )
  parse_url-build_url _ (full_link pid rid h k) = (
    codes "/projects/" ++ (pid ++ (codes "/documents/" ++ rid)),
    rw (require_id-IsId pid h, require_id-IsId rid k) refl,
    parse_url-path u b'p' (codes "rojects") (pid ∷ codes "documents" ∷ rid ∷ []) (
      word-IsSegment (codes "projects") refl,
      (IsId-IsSegment pid h, (word-IsSegment (codes "documents") refl, (IsId-IsSegment rid k, tt))),
    )
        ∙ (rw (split_query-none, h.valid, k.valid) refl),
  )
  parse_url-build_url _ (bookmark_link rid h) = (
    codes "/bookmarks/" ++ rid,
    rw (require_id-IsId rid h) refl,
    parse_url-path u b'b' (codes "ookmarks") (rid ∷ [])
          (word-IsSegment (codes "bookmarks") refl, (IsId-IsSegment rid h, tt))
        ∙ (rw (split_query-none, h.valid) refl),
  )
  parse_url-build_url _ (knowledge_link rid h) = (
    codes "/knowledge/" ++ rid,
    rw (require_id-IsId rid h) refl,
    parse_url-path u b'k' (codes "nowledge") (rid ∷ [])
          (word-IsSegment (codes "knowledge") refl, (IsId-IsSegment rid h, tt))
        ∙ (rw (split_query-none, h.valid) refl),
  )
  parse_url-build_url _ (docsite_link sid page pages h k) = (
    codes "/docsites/" ++ (sid ++ (codes "/" ++ join b'/' (page ∷ pages))),
    rw (require_id-IsId sid h, require_path-join page pages k) refl,
    parse_url-path u b'd' (codes "ocsites") (sid ∷ page ∷ pages)
          (word-IsSegment (codes "docsites") refl, (IsId-IsSegment sid h, k))
        ∙ (rw split_query-none (ap some (of_segments-docsites sid page pages h))),
  )
  parse_url-build_url _ (project_link pid h) = (
    codes "/projects/" ++ pid,
    rw (require_id-IsId pid h) refl,
    parse_url-path u b'p' (codes "rojects") (pid ∷ [])
          (word-IsSegment (codes "projects") refl, (IsId-IsSegment pid h, tt))
        ∙ (rw (split_query-none, h.valid) refl),
  )
