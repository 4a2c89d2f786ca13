-- ===== src/Registry.antt =====
-- What the clients of lib/capability-registry.js read: `lookupModel`, `lookupHarness` and the
-- canonical ids, as the object that `createRegistry` returns. `lookup` answers a known fact with
-- the entry, or an unknown fact: an entry or none.
pub mod Entries
pub mod Build
use view_limits.Base.{Option, List, String}
use view_limits.Value.{Value}

pub record ModelEntry : Type 0 where
  pub id : String
  pub family : String
  pub aliases : List String
  pub task_capabilities : List String

pub record HarnessEntry : Type 0 where
  pub id : String
  pub aliases : List String
  pub execution_capabilities : List String
  pub skills : List String

pub record Registry : Type 0 where
  pub lookup_model : Value → Option ModelEntry
  pub lookup_harness : Value → Option HarnessEntry
  pub canonical_harness_id : String → Option String
  pub canonical_family_id : String → Option String
