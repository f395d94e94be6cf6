-- ===== src/Routing.antt =====
-- dht/routing_table.go: buckets of contacts that partition the keys, and the table over them.
pub mod Bucket
pub mod Table
pub mod Routines
