-- ===== src/Tests/Process.antt =====
-- A collector process on a concrete bucket, with an object under a key that is no snapshot's, and a
-- request for the status of a datastore.
use pmoxs3backuproxy.Prelude.{true, false, none, some, [], ◌≡◌, ◌≤◌, refl, subst, ok, length}
use pmoxs3backuproxy.Prelude.Int.{pos}
use pmoxs3backuproxy.Prelude.Strings.{codes}
use pmoxs3backuproxy.Client.{Client, Documented}
use pmoxs3backuproxy.Gc.Process.{Flags, Environment, collect}
use pmoxs3backuproxy.Gc.Process.Kept.{Guarded, collect-Guarded}
use pmoxs3backuproxy.Gc.Run.{World}
use pmoxs3backuproxy.Proxy.Dispatch.{Request, routes}
use pmoxs3backuproxy.Proxy.Dispatch.Unique.{routes_unique}
use pmoxs3backuproxy.Tests.Bucket.{Bucket, client, has, documented}

abbrev flags : Flags
flags = record {
  print_version = false;
  endpoint = codes "s3";
  secure = true;
  bucket = codes "store";
  access_key = codes "user";
  secret_key = codes "secret";
  secret_key_file = [];
  lookup_type = codes "path";
  retention_days = 60;
  chunk_grace_hours = 24;
}

abbrev environment : Environment Bucket
environment = record {
  read_file = λ name. none;
  new_client = λ endpoint user secret secure kind. some (client []);
  acquire = λ name. true;
  bucket_exists = λ s name. ok true;
  sha256 = λ b. b;
  decode_note = λ b. none;
  marshal = λ stats. [];
}

abbrev world : World Bucket
world = record { bucket = λ key. true; invalidations = 0 }

same_client : (made : Client Bucket) → some (client []) ≡ some made → Documented made has
same_client made e =
    let same : client [] ≡ made = cc in subst (λ c. Documented c has) same (documented [])

collect-Guarded_example :
    Guarded environment has flags
      (pos 0)
      world
      (codes "other")
      (collect environment flags (pos 0) world)
collect-Guarded_example =
    collect-Guarded environment has flags (pos 0) world (codes "other") refl
      (λ endpoint user secret secure made e. same_client made e)

abbrev status_request : Request
status_request = record {
  uri = codes "/api2/json/admin/datastore/store/status";
  method = codes "GET";
  auth = true;
  session = false;
}

routes_unique_example : length (routes status_request) ≤ 1
routes_unique_example = routes_unique status_request
