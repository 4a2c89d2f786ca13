-- ===== src/Cache/Tagged.antt =====
-- lib/cache.js with lib/monitor-schema.js: what the reader makes of a revision that the writer put.
use view_limits.Base.{
  Bool, true, false, not, some, List, String, str_eq, ◌≡◌, refl, ap, ◌∙◌, arith, Bool-cases, inl,
  inr, eq_iff, if◌then◌else◌,
}
use view_limits.Base.Text.{Engine, is_blank}
use view_limits.Value.{Value, arr, obj, Fields, Items, end, field, get, get_field, items}
use view_limits.Monitor.Revision.{Digest, config_revision, is_config_obsolete, obsolete_under}
use view_limits.Cache.{route_by_id, tagged, tag, attach_all, attach_revisions}

-- The hash of a text is not empty.
pub record IsFilled (d : Digest) : Type 0 where
  pub filled : (v : Value) → is_blank (d.digest v) ≡ false

picked_first :
    (b : Bool) (v w : Value) (entry : Fields)
    → b ≡ true
    → (if b then v else w) ≡ obj entry
    → v ≡ obj entry
picked_first true v w entry t h = h
picked_first false v w entry t h = absurd (ground arith)

picked_rest :
    (b : Bool) (v w : Value) (entry : Fields)
    → b ≡ false
    → (if b then v else w) ≡ obj entry
    → w ≡ obj entry
picked_rest false v w entry t h = h
picked_rest true v w entry t h = absurd (ground arith)

module _ ⦃e : Engine⦄ ⦃d : Digest⦄ where
  -- What has become of the entry of a route.
  pub record IsTagged (route entry : Fields) (out : Value) : Type 0 where
    pub written : Fields
    pub is_written : out ≡ obj written
    pub kept :
        (k : String) → str_eq k "configRevision" ≡ false → get_field k written ≡ get_field k entry
    pub read :
        (other : Fields)
        → is_config_obsolete (obj written) (obj other)
          ≡ not (str_eq (config_revision route) (config_revision other))

  pub get_field-attach_all :
      (routes : List Value) (id : String) (fs : Fields) (entry : Fields)
      → get_field id fs ≡ obj entry
      → get_field id (attach_all routes fs) ≡ tag (route_by_id id routes) (obj entry)
  unfolding attach_all
  get_field-attach_all routes id end entry h = absurd (ground arith)
  get_field-attach_all routes id (field k v fs) entry h = elim (Bool-cases (str_eq k id)) [
    | inl t ↦ rw (t) (
        ap (λ j. tag (route_by_id j routes) v) ((eq_iff k id).0 t)
        ∙ ap (tag (route_by_id id routes))
            (picked_first (str_eq k id) v (get_field id fs) entry t h))
    | inr f ↦ rw (f) (
        get_field-attach_all routes id fs entry
          (picked_rest (str_eq k id) v (get_field id fs) entry f h))
  ]

  revision-filled : IsFilled d → (route : Fields) → is_blank (config_revision route) ≡ false
  unfolding config_revision
  revision-filled n route = n.filled _

  tagged-IsTagged :
      IsFilled d → (route entry : Fields) → IsTagged route entry (obj (tagged route entry))
  unfolding is_config_obsolete obsolete_under
  tagged-IsTagged n route entry = record {
    written = tagged route entry;
    is_written = refl;
    kept = λ k h. ground (arith, eq_iff k "configRevision", eq_iff "configRevision" k);
    read = λ other. rw (revision-filled n route, revision-filled n other) refl;
  }

  -- Where hashes are not empty: the entry of a route that the writer knows keeps all its fields but
  -- the revision, and afterwards the reader finds it obsolete for a route exactly when that route's
  -- revision is not the one of the route it was written for.
  pub attach_revisions-IsTagged :
      IsFilled d
      → (statuses : Fields) (options : Value) (routes : Items) (id : String) (entry route : Fields)
      → get "routes" options ≡ arr routes
      → get_field id statuses ≡ obj entry
      → route_by_id id (items routes) ≡ some route
      → IsTagged route entry (get id (attach_revisions (obj statuses) options))
  unfolding attach_revisions
  attach_revisions-IsTagged n statuses options routes id entry route o h r =
      rw (o, get_field-attach_all (items routes) id statuses entry h, r)
        (tagged-IsTagged n route entry)
