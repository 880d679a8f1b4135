-- ===== src/Map.antt =====
-- Go's built-in maps as association lists: a write to a present key keeps its place, a write to a
-- new key goes to the end. The code never relies on the order in which a map is ranged over.
mod Defs
pub mod Laws
unfoldable pub use Defs.{Map, lookup, insert, delete, keys, has, sum_by, update, rebuild}
