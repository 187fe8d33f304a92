-- ===== src/Proxy/Settings/Durations.antt =====
-- The lifetime of a cache that a number of seconds gives (main of cmd/pmoxs3backuproxy/main.go and
-- cmd/pmoxs3backuproxy/cache.go).
