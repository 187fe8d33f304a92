-- ===== src/Tests/Settings.antt =====
-- The lifetimes of caches on concrete flags.
use pmoxs3backuproxy.Prelude.{ℕ, true, false, some}
use pmoxs3backuproxy.Prelude.Int.{pos}
use pmoxs3backuproxy.Proxy.Cache.{Entry}

abbrev cached_value : Entry ℕ
cached_value = record {
  value = some 7;
  fetched = some (pos 5);
  valid = true;
  refreshing = false;
  generation = 0;
}
