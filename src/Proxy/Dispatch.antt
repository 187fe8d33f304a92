-- ===== src/Proxy/Dispatch.antt =====
-- Which handler a request reaches (the tests of ServeHTTP in cmd/pmoxs3backuproxy/main.go). Most
-- handlers do not return, so that the tests after them are tried too.
pub mod Unique
use Prim.Native.String.{String}
use pmoxs3backuproxy.Prelude.{
  ℕ, suc, Bool, true, false, ◌&&◌, ◌||◌, Option, none, some, List, [], ◌∷◌, ◌++◌, map, leb, length,
  drop, keep_if, if◌then◌else◌,
}
use pmoxs3backuproxy.Prelude.Strings.{Bytes, codes, bytes_eq, has_prefix, split}

-- What the tests read of a request: the URI, the method, whether its cookie is that of a ticket, and
-- whether the server is that of a backup or restore session.
pub record Request : Type 0 where
  pub uri : Bytes
  pub method : Bytes
  pub auth : Bool
  pub session : Bool

pub data Route : Type 0 where
  to_version to_get_notes to_put_notes to_get_files to_get_protected to_put_protected
        to_not_implemented :
      Route
  to_get_stats to_get_status to_get_namespace to_get_groups to_upload_backup_log to_snapshots :
      Route
  to_finish to_previous_backup_time to_previous : Route
  to_create_fixed_index to_create_dynamic_index to_close_fixed to_close_dynamic : Route
  to_append_dynamic to_append_fixed to_upload_chunk to_upload_blob to_speedtest : Route
  to_download to_download_chunk to_list_datastores to_start_backup to_start_restore to_log_in :
      Route

pub data Test : Type 0 where
  uri_starts uri_is action_starts action_is method_is : Bytes → Test
  authenticated in_session long_path : Test

first : List Bytes → Bytes
first [] = []
first (a ∷ rest) = a

-- `path[6]`
unfoldable pub action_of : Request → Bytes
unfolding first
action_of r = first (drop 6 (split r.uri b'/'))

unfoldable pub holds : Request → Test → Bool
holds r (uri_starts p) = has_prefix r.uri p
holds r (uri_is p) = bytes_eq r.uri p
holds r (action_starts p) = has_prefix (action_of r) p
holds r (action_is p) = bytes_eq (action_of r) p
holds r (method_is m) = bytes_eq r.method m
holds r authenticated = r.auth
holds r in_session = r.session
holds r long_path = leb 7 (length (split r.uri b'/'))

unfoldable pub all_hold : Request → List Test → Bool
all_hold r [] = true
all_hold r (t ∷ tests) = holds r t && all_hold r tests

-- A handler of a datastore, under the tests that all of these share.
admin : Test → List Test → List Test
admin action tests =
    uri_starts (codes "/api2/json/admin/datastore/") ∷ long_path ∷ authenticated ∷ action ∷ tests

-- A handler of a session.
served : String → String → List Test
served prefix method = uri_starts (codes prefix) ∷ in_session ∷ method_is (codes method) ∷ []

abbrev pub Row : Type 0
Row = List Test × Route

admin_rows : List Row
unfolding admin
admin_rows =
    (admin (action_starts (codes "notes")) (method_is (codes "GET") ∷ []), to_get_notes)
    ∷ (admin (action_starts (codes "notes")) (method_is (codes "PUT") ∷ []), to_put_notes)
    ∷ (admin (action_starts (codes "files")) (method_is (codes "GET") ∷ []), to_get_files)
    ∷ (admin (action_starts (codes "protected")) (method_is (codes "GET") ∷ []), to_get_protected)
    ∷ (admin (action_starts (codes "protected")) (method_is (codes "PUT") ∷ []), to_put_protected)
    ∷ (admin (action_is (codes "gc")) [], to_not_implemented)
    ∷ (admin (action_is (codes "prune")) [], to_not_implemented)
    ∷ (admin (action_is (codes "s3stats")) (method_is (codes "GET") ∷ []), to_get_stats)
    ∷ (admin (action_is (codes "status")) [], to_get_status)
    ∷ (admin (action_starts (codes "namespace")) [], to_get_namespace)
    ∷ (admin (action_starts (codes "groups")) [], to_get_groups)
    ∷ (
      admin (action_starts (codes "upload-backup-log")) (method_is (codes "POST") ∷ []),
      to_upload_backup_log,
    )
    ∷ (admin (action_starts (codes "snapshots")) [], to_snapshots)
    ∷ []

session_rows : List Row
unfolding served
session_rows =
    (served "/finish" "POST", to_finish)
    ∷ (served "/previous_backup_time" "GET", to_previous_backup_time)
    ∷ (served "/previous?" "GET", to_previous)
    ∷ (served "/fixed_index?" "POST", to_create_fixed_index)
    ∷ (served "/dynamic_index?" "POST", to_create_dynamic_index)
    ∷ (served "/fixed_close?" "POST", to_close_fixed)
    ∷ (served "/dynamic_close?" "POST", to_close_dynamic)
    ∷ (served "/dynamic_index" "PUT", to_append_dynamic)
    ∷ (served "/fixed_index" "PUT", to_append_fixed)
    ∷ (uri_starts (codes "/fixed_chunk?") ∷ [], to_upload_chunk)
    ∷ (uri_starts (codes "/dynamic_chunk?") ∷ [], to_upload_chunk)
    ∷ (uri_starts (codes "/blob?") ∷ in_session ∷ [], to_upload_blob)
    ∷ (uri_starts (codes "/speedtest") ∷ in_session ∷ [], to_speedtest)
    ∷ (uri_starts (codes "/download?") ∷ in_session ∷ [], to_download)
    ∷ (uri_starts (codes "/chunk?") ∷ in_session ∷ [], to_download_chunk)
    ∷ []

datastores_row : Row
datastores_row = (
  uri_is (codes "/api2/json/admin/datastore") ∷ method_is (codes "GET") ∷ authenticated ∷ [],
  to_list_datastores,
)

backup_row : Row
backup_row = (uri_starts (codes "//api2/json/backup") ∷ authenticated ∷ [], to_start_backup)

reader_row : Row
reader_row = (uri_starts (codes "//api2/json/reader") ∷ authenticated ∷ [], to_start_restore)

-- The two spellings of the path of tickets.
ticket_rows : List Row
ticket_rows =
    (uri_is (codes "//api2/json/access/ticket") ∷ method_is (codes "POST") ∷ [], to_log_in)
    ∷ (uri_is (codes "/api2/json/access/ticket") ∷ method_is (codes "POST") ∷ [], to_log_in)
    ∷ []

-- The tests, in their order.
unfoldable pub table : List Row
unfolding admin_rows session_rows datastores_row backup_row reader_row ticket_rows
table =
    (uri_starts (codes "/api2/json/version") ∷ authenticated ∷ [], to_version)
    ∷ (admin_rows ++ (session_rows ++ (datastores_row ∷ backup_row ∷ reader_row ∷ ticket_rows)))

-- The handlers whose tests hold of a request.
unfoldable pub routes : Request → List Route
routes r = map (λ row. row.1) (keep_if (λ row. all_hold r row.0) table)
