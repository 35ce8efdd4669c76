-- ===== src/Url/Examples.antt =====
-- Links at concrete ids, where nothing of a text is escaped.
use claude_todo.Prelude.{◌≡◌, refl, ◌⊎◌, true, false, none, some, [], ◌∷◌, ◌++◌}
use claude_todo.Url.{
  Text, codes, is_object_id, hex_run, Unicode, parse_url, build_url, ParsedUrl, plain, task,
  project, unknown, urlparse, partition, lstrip, rstrip, split, split_netloc, parse_qsl,
  normalise_path, hostname, after_last, origin_allowed,
}
use claude_todo.Url.Trip.{IsId}
use claude_todo.Url.Restore.{task_link, parse_url-build_url}
use claude_todo.Url.Sound.{Served, fits, parse_url-fits}

abbrev unescaped : Unicode
unescaped = record {
  netloc_ok = λ s. true;
  netloc_none = refl;
  unquote = λ s. s;
  unquote_plain = λ s h. refl;
}

abbrev pid : Text
pid = codes "0123456789abcdef01234567"

abbrev rid : Text
rid = codes "aaaaaaaaaaaaaaaaaaaaaaaa"

pid-IsId : IsId pid
unfolding is_object_id hex_run
pid-IsId = record { valid = refl; no_newline = refl }

rid-IsId : IsId rid
unfolding is_object_id hex_run
rid-IsId = record { valid = refl; no_newline = refl }

abbrev task_of_project : ParsedUrl
task_of_project = record (plain task false) { project_id = some pid; resource_id = some rid }

parse_url-build_url_example :
    (url : Text) × (build_url task (some pid) (some rid) none none ≡ some url)
    × (parse_url unescaped url ≡ some task_of_project)
parse_url-build_url_example =
    parse_url-build_url unescaped task_of_project (task_link pid rid pid-IsId rid-IsId)

foreign :
    parse_url unescaped (codes "https://elsewhere.org/projects/0123456789abcdef01234567")
    ≡ some (plain unknown false)
unfolding parse_url urlparse partition lstrip rstrip split split_netloc parse_qsl normalise_path
    hostname after_last origin_allowed is_object_id hex_run
foreign = refl

local_read :
    parse_url unescaped
      (codes "http://localhost:5173/projects/0123456789abcdef01234567/?view=board")
    ≡ some (record (plain project true) { project_id = some pid })
unfolding parse_url urlparse partition lstrip rstrip split split_netloc parse_qsl normalise_path
    hostname after_last origin_allowed is_object_id hex_run
local_read = refl

parse_url-fits_example :
    (fits (record (plain project true) { project_id = some pid }) ≡ true)
    × ((project ≡ unknown)
        ⊎ Served unescaped
            (codes "http://localhost:5173/projects/0123456789abcdef01234567/?view=board"))
parse_url-fits_example =
    parse_url-fits unescaped
      (codes "http://localhost:5173/projects/0123456789abcdef01234567/?view=board")
      (record (plain project true) { project_id = some pid }) local_read

-- An id with a newline behind it passes for one.
newline_id : is_object_id (rid ++ 10 ∷ []) ≡ true
unfolding is_object_id hex_run
newline_id = refl
