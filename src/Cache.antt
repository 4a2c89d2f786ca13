-- ===== src/Cache.antt =====
-- lib/cache.js: the revision that the writer of the cache puts on each entry.
pub mod Tagged
pub mod Entry
pub mod Denied
pub mod Readable
pub mod Agrees
use view_limits.Base.{
  Bool, true, false, Option, none, some, List, [], ◌∷◌, String, str_eq, if◌then◌else◌,
}
use view_limits.Base.Text.{Engine}
use view_limits.Value.{Value, str, arr, obj, Fields, end, field, get, get_field, items, truthy}
use view_limits.Monitor.Revision.{Digest, config_revision}

abbrev pub has_id : String → Value → Bool
has_id id (str s) = str_eq s id
has_id id _ = false

abbrev pub route_at : String → Value → Option Fields
route_at id (obj route) = if has_id id (get_field "id" route) then some route else none
route_at id _ = none

-- `routeById.get(id)`: the last route with the id.
unfoldable pub route_by_id : String → List Value → Option Fields
route_by_id id [] = none
route_by_id id (r ∷ rs) =
    let rest = route_by_id id rs in elim rest [ some l ↦ some l | none ↦ route_at id r ]

module _ ⦃e : Engine⦄ ⦃d : Digest⦄ where
  -- `Object.assign({}, entry, { configRevision: configRevision(route) })`.
  abbrev pub tagged : Fields → Fields → Fields
  tagged route entry = field "configRevision" (str (config_revision route)) entry

  abbrev pub tag : Option Fields → Value → Value
  tag (some route) (obj entry) = obj (tagged route entry)
  tag _ entry = entry

  -- The loop over `Object.entries(routeStatuses)`.
  unfoldable pub attach_all : List Value → Fields → Fields
  unfolding route_by_id
  attach_all routes end = end
  attach_all routes (field id entry rest) =
      field id (tag (route_by_id id routes) entry) (attach_all routes rest)

  abbrev members_of : Value → Fields
  members_of (obj fs) = fs
  members_of _ = end

  abbrev attach_from : Value → Value → Value
  unfolding attach_all
  attach_from (arr routes) statuses = obj (attach_all (items routes) (members_of statuses))
  attach_from _ statuses = statuses

  -- `attachRevisions(routeStatuses, options)`.
  unfoldable pub attach_revisions : Value → Value → Value
  unfolding attach_all
  attach_revisions statuses options = attach_from (get "routes" options) statuses
