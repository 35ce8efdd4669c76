-- ===== src/Url.antt =====
-- backend/app/lib/url_contract.py: `parse_url`, which finds what a link of the application points
-- at, and `build_url`, which makes the link. The kind of a resource is a data type, so that
-- `build_url` has no unsupported kind but `unknown`.
mod Strings
mod Stdlib
pub mod Ids
pub mod Digits
pub mod Feeds
pub mod Trip
pub mod Segments
pub mod Restore
pub mod Sound
pub mod Examples
unfoldable pub use Strings.*
unfoldable pub use Stdlib.*
use claude_todo.Prelude.{
  ℕ, zero, suc, ◌≡◌, Bool, true, false, not, ◌&&◌, ◌||◌, Option, none, some, List, [], ◌∷◌, ◌++◌,
  ◌==◌, nat_eq, if◌then◌else◌, leb, contains,
}

pub data ResourceKind : Type 0 where
  task document document_full bookmark knowledge docsite_page project unknown : ResourceKind

pub record ParsedUrl : Type 0 where
  pub kind : ResourceKind
  pub project_id : Option Text
  pub resource_id : Option Text
  pub path : Option Text
  pub site_id : Option Text
  pub had_unknown_params : Bool
  pub redirect_to : Option Text

abbrev pub is_hex : ℕ → Bool
is_hex c = (leb b'a' c && leb c b'f') || is_digit c

-- `[a-f0-9]{n}$` at the start of a text: `$` also stands before a last newline.
unfoldable pub hex_run : ℕ → Text → Bool
hex_run zero [] = true
hex_run zero (c ∷ []) = c == 10
hex_run zero (c ∷ d ∷ cs) = false
hex_run (suc n) [] = false
hex_run (suc n) (c ∷ cs) = is_hex c && hex_run n cs

unfoldable pub is_object_id : Text → Bool
unfolding hex_run
is_object_id value = hex_run 24 value

abbrev pub allowed_hosts : List Text
allowed_hosts = codes "todo.vtech-studios.com" ∷ []

unfoldable pub origin_allowed : SplitResult → Bool
unfolding hostname
origin_allowed parsed =
    let host = lower (hostname parsed) in contains allowed_hosts host || host == codes "localhost"

abbrev pub is_slash : ℕ → Bool
is_slash c = c == b'/'

abbrev pub is_bad_segment : Text → Bool
is_bad_segment s = s == [] || s == codes "." || s == codes ".."

abbrev pub any_bad : List Text → Bool
any_bad [] = false
any_bad (s ∷ ss) = is_bad_segment s || any_bad ss

-- What is left of a path without its outer slashes, and its segments.
abbrev pub of_stripped : Text → List Text → Option (List Text)
of_stripped [] segments = some []
of_stripped (c ∷ cs) segments = if any_bad segments then none else some segments

-- `rstrip` changes a text only if it ends with a slash.
unfoldable pub normalise_path : Text → Option (List Text)
unfolding split lstrip rstrip
normalise_path path =
    let stripped = rstrip is_slash (lstrip is_slash path) in
    of_stripped stripped (split b'/' stripped)

-- The recognised keys of a query, the last value of each, and whether there were others.
pub record Query : Type 0 where
  pub task_value : Option Text
  pub doc_value : Option Text
  pub had_unknown : Bool

abbrev pub add_pair : Query → Text × Text → Query
add_pair q (key, value) =
    if key == codes "task"
    then record q { task_value = some value }
    else if key == codes "doc"
    then record q { doc_value = some value }
    else record q { had_unknown = true }

abbrev pub add_pairs : Query → List (Text × Text) → Query
add_pairs q [] = q
add_pairs q (pair ∷ pairs) = add_pairs (add_pair q pair) pairs

-- `strip` of Python takes off these.
abbrev pub is_space : ℕ → Bool
is_space c =
    leb 9 c && leb c 13
    || leb 28 c && leb c 32
    || c == 133
    || c == 160
    || c == 5760
    || leb 8192 c && leb c 8202
    || c == 8232
    || c == 8233
    || c == 8239
    || c == 8287
    || c == 12288

abbrev pub plain : ResourceKind → Bool → ParsedUrl
plain kind had = record {
  kind = kind;
  project_id = none;
  resource_id = none;
  path = none;
  site_id = none;
  had_unknown_params = had;
  redirect_to = none;
}

-- A resource of its own, or nothing where the id is none.
abbrev pub with_id : ResourceKind → Text → Bool → ParsedUrl
with_id kind id had =
    if is_object_id id then record (plain kind had) { resource_id = some id } else plain unknown had

-- `/projects/{pid}` with `?task=` or `?doc=`.
abbrev pub in_query : ResourceKind → Text → Text → Bool → ParsedUrl
in_query kind pid id had =
    if is_object_id id
    then record (plain kind had) { project_id = some pid; resource_id = some id }
    else record (plain project true) { project_id = some pid }

-- `?task=` comes first.
abbrev pub of_values : Text → Option Text → Option Text → Bool → ParsedUrl
of_values pid (some tid) doc had = in_query task pid tid had
of_values pid none (some did) had = in_query document pid did had
of_values pid none none had = record (plain project had) { project_id = some pid }

abbrev pub of_project : Text → Query → ParsedUrl
of_project pid q = of_values pid q.task_value q.doc_value q.had_unknown

abbrev pub of_docsite : Text → Text → List Text → Query → ParsedUrl
of_docsite first sid rest q =
    if first == codes "docsites"
    then (if is_object_id sid
        then record (plain docsite_page q.had_unknown) {
          site_id = some sid;
          path = some (join b'/' rest);
        }
        else plain unknown q.had_unknown)
    else plain unknown q.had_unknown

abbrev pub of_pair : Text → Text → Query → ParsedUrl
of_pair first id q =
    if first == codes "workbench"
    then (if is_object_id id
        then record (plain project q.had_unknown) {
          project_id = some id;
          redirect_to = some (codes "/projects/" ++ id);
        }
        else plain unknown q.had_unknown)
    else if first == codes "projects"
    then (if is_object_id id then of_project id q else plain unknown q.had_unknown)
    else if first == codes "bookmarks"
    then with_id bookmark id q.had_unknown
    else if first == codes "knowledge"
    then with_id knowledge id q.had_unknown
    else plain unknown q.had_unknown

abbrev pub of_four : Text → Text → Text → Text → Query → ParsedUrl
of_four first pid third did q =
    if first == codes "projects" && third == codes "documents"
    then (if is_object_id pid && is_object_id did
        then record (plain document_full q.had_unknown) {
          project_id = some pid;
          resource_id = some did;
        }
        else plain unknown q.had_unknown)
    else of_docsite first pid (third ∷ did ∷ []) q

abbrev pub of_segments : List Text → Query → ParsedUrl
of_segments [] q = plain unknown q.had_unknown
of_segments (a ∷ []) q = plain unknown q.had_unknown
of_segments (a ∷ b ∷ []) q = of_pair a b q
of_segments (a ∷ b ∷ c ∷ []) q = of_docsite a b (c ∷ []) q
of_segments (a ∷ b ∷ c ∷ d ∷ []) q = of_four a b c d q
of_segments (a ∷ b ∷ c ∷ d ∷ e ∷ rest) q = of_docsite a b (c ∷ d ∷ e ∷ rest) q

abbrev pub of_path : Option (List Text) → Query → ParsedUrl
of_path none q = plain unknown q.had_unknown
of_path (some segments) q = of_segments segments q

module _ (u : Unicode) where
  abbrev pub split_query : Text → Query
  split_query query =
      add_pairs (record { task_value = none; doc_value = none; had_unknown = false })
        (parse_qsl u query)

  abbrev pub of_split : SplitResult → ParsedUrl
  of_split parsed =
      let found = of_path (normalise_path parsed.path) (split_query parsed.query) in
      if not (parsed.scheme == []) && not (origin_allowed parsed)
      then plain unknown false
      else found

  abbrev pub of_parsed : Option SplitResult → Option ParsedUrl
  of_parsed none = none
  of_parsed (some parsed) = some (of_split parsed)

  -- `none` where the library raises.
  unfoldable pub parse_url : Text → Option ParsedUrl
  unfolding urlparse parse_qsl
  parse_url url =
      let parsed = of_parsed (urlparse u url) in
      if all_of is_space url then some (plain unknown false) else parsed

-- `_require` of an id.
abbrev pub require_id : Option Text → Option Text
require_id none = none
require_id (some []) = none
require_id (some (c ∷ cs)) = if is_object_id (c ∷ cs) then some (c ∷ cs) else none

-- `_PATH_TRAVERSAL_RE`: its `$` also stands before a last newline.
abbrev pub has_traversal : List Text → Bool
has_traversal [] = false
has_traversal (s ∷ []) =
    s == codes "." || s == codes ".." || s == codes "." ++ 10 ∷ [] || s == codes ".." ++ 10 ∷ []
has_traversal (s ∷ t ∷ ss) = s == codes "." || s == codes ".." || has_traversal (t ∷ ss)

abbrev pub require_path : Option Text → Option Text
require_path none = none
require_path (some []) = none
require_path (some (c ∷ cs)) =
    if has_traversal (split b'/' (c ∷ cs)) || c == b'/' then none else some (c ∷ cs)

abbrev pub url_of_one : Text → Option Text → Option Text
url_of_one start none = none
url_of_one start (some id) = some (start ++ id)

abbrev pub url_of_two : Text → Text → Option Text → Option Text → Option Text
url_of_two start between (some id) (some other) = some (start ++ (id ++ (between ++ other)))
url_of_two start between none other = none
url_of_two start between (some id) none = none

-- `none` where it raises ValueError.
unfoldable pub build_url :
    ResourceKind → Option Text → Option Text → Option Text → Option Text → Option Text
unfolding is_object_id split
build_url task project_id resource_id path site_id =
    url_of_two (codes "/projects/") (codes "?task=") (require_id project_id)
      (require_id resource_id)
build_url document project_id resource_id path site_id =
    url_of_two (codes "/projects/") (codes "?doc=") (require_id project_id) (require_id resource_id)
build_url document_full project_id resource_id path site_id =
    url_of_two (codes "/projects/") (codes "/documents/") (require_id project_id)
      (require_id resource_id)
build_url bookmark project_id resource_id path site_id =
    url_of_one (codes "/bookmarks/") (require_id resource_id)
build_url knowledge project_id resource_id path site_id =
    url_of_one (codes "/knowledge/") (require_id resource_id)
build_url docsite_page project_id resource_id path site_id =
    url_of_two (codes "/docsites/") (codes "/") (require_id site_id) (require_path path)
build_url project project_id resource_id path site_id =
    url_of_one (codes "/projects/") (require_id project_id)
build_url unknown project_id resource_id path site_id = none
