-- ===== src/Tests/Backups.antt =====
-- A backup session that breaks off, on a concrete bucket.
use pmoxs3backuproxy.Prelude.{Bool, true, false, [], ◌≡◌, refl, inr, arith, ok}
use pmoxs3backuproxy.Prelude.Decimal.{decimal, decimal_from}
use pmoxs3backuproxy.Prelude.Maps.{lookup}
use pmoxs3backuproxy.Prelude.Strings.{codes, has_prefix}
use pmoxs3backuproxy.Snapshots.{zero_snapshot, s3_prefix, prefix_name}
use pmoxs3backuproxy.Snapshots.Delete.{deletion_prefix}
use pmoxs3backuproxy.Proxy.Backups.{World, Session, backup}
use pmoxs3backuproxy.Proxy.Backups.Ended.{Left, started, backup-Left}
use pmoxs3backuproxy.Proxy.Sessions.{active_sessions}
use pmoxs3backuproxy.Proxy.Sessions.Refinement.{Represents, open_of}
use pmoxs3backuproxy.Tests.Bucket.{Bucket, client, has, documented}

abbrev session : Session
session = record {
  lock_name = codes "a";
  datastore = codes "ds";
  snapshot = record zero_snapshot {
    backup_id = codes "7";
    backup_time = 12;
    backup_type = codes "vm";
  };
  acquired = ok 5;
  published = ok [];
}

abbrev world : World Bucket
world = record {
  bucket = λ key. true;
  locks = record { session_locks = []; sessions = 0 };
  caches = record {
    snapshot_lists = [];
    datastore_usages = [];
    usage_reports = [];
    archive_sizes = [];
    manifest_crypt_modes = [];
    seen = [];
  };
}

-- The connection breaks at once.
abbrev breaks : World Bucket → World Bucket × Bool
breaks w = (w, false)

no_sessions : Represents world.locks []
unfolding Represents lookup open_of active_sessions
no_sessions = (refl, λ name. refl)

another : has_prefix (codes "backups/7|13|vm/a.fidx") (deletion_prefix session.snapshot) ≡ false
unfolding has_prefix codes s3_prefix prefix_name decimal decimal_from
another = refl

backup-Left_example :
    Left has session
      (codes "backups/7|13|vm/a.fidx")
      (started session world)
      world
      (backup (client []) breaks session world)
backup-Left_example =
    backup-Left (client []) has (documented []) breaks session world []
      (codes "backups/7|13|vm/a.fidx") (λ w running stands h. (running, stands, h)) no_sessions
      (omega arith) (inr another) refl
