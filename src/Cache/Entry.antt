-- ===== src/Cache/Entry.antt =====
-- lib/cache.js: the reader of the cache, the bound of an entry by a known recovery and freshness;
-- lib/collector.js: `entryFor`, the entry of an observation. An instant is a number of
-- milliseconds from the start of the year 0, as in lib/gate.js.
use view_limits.Base.{
  ℕ, zero, ◌+◌, ◌*◌, Bool, true, false, not, ◌&&◌, Option, none, some, String, if◌then◌else◌, leb,
}
use view_limits.Value.{
  Value, undefined, null, num, finite, str, arr, obj, Fields, end, field, get, get_field, truthy,
  is_plain_object,
}
use view_limits.Gate.Time.{◌>>=◌}
use view_limits.Gate.Decide.{is_state}

-- What the JavaScript engine supplies: `Date.parse(v)` with `none` for NaN,
-- `new Date(t).toISOString()` with `none` where it throws, and `now + ttl * 1000` for a `ttl` that
-- is not an integer from 0 on: of a fraction, the product and the sum of doubles.
pub record Dates : Type 0 where
  pub parse_date : Value → Option ℕ
  pub to_iso_string : ℕ → Option String
  pub shift : ℕ → Value → Option ℕ

-- `Object.fromEntries(Object.entries(doc.routes).filter(...))`.
unfoldable pub object_entries : Fields → Fields
object_entries end = end
object_entries (field id entry rest) =
    let kept = object_entries rest in if is_plain_object entry then field id entry kept else kept

abbrev empty_cache : Value
empty_cache = obj (field "updatedAt" null (field "routes" (obj end) end))

abbrev pub with_routes : Fields → Value → Value
with_routes doc (obj routes) = obj (field "routes" (obj (object_entries routes)) doc)
with_routes doc _ = empty_cache

-- `readCache()`, given the document that was read and parsed, if there is one.
unfoldable pub read_cache : Option Value → Value
unfolding object_entries
read_cache (some (obj doc)) = with_routes doc (get_field "routes" doc)
read_cache _ = empty_cache

-- `v && typeof v === 'object'`.
abbrev is_object : Value → Bool
is_object (obj fs) = true
is_object (arr vs) = true
is_object _ = false

-- A custom route whose status is exhausted.
unfoldable pub is_bounded : Value → Value → Bool
is_bounded route status =
    is_object (get "monitor" route)
    && (not (is_state (get "recipe" (get "monitor" route)) "built-in")
        && is_state (get "state" status) "exhausted")

abbrev pub earlier : ℕ → Option ℕ → ℕ
earlier t none = t
earlier t (some r) = if leb t r then t else r

module _ ⦃d : Dates⦄ where
  -- `recoveryBoundedFreshUntil(route, status, ttlFreshUntilMs)`.
  unfoldable pub recovery_bounded_fresh_until : Value → Value → ℕ → ℕ
  unfolding is_bounded
  recovery_bounded_fresh_until route status t =
      if is_bounded route status then earlier t (d.parse_date (get "resetAt" status)) else t

  -- `isFresh(entry, now)`.
  unfoldable pub is_fresh : Value → ℕ → Bool
  is_fresh entry now =
      truthy (get "freshUntil" entry)
      && elim (d.parse_date (get "freshUntil" entry)) [ none ↦ false | some t ↦ leb now t ]

  -- `nowMs + ttl * 1000`, where a missing `ttlSeconds` is 180.
  unfoldable pub expiry_of : ℕ → Value → Option ℕ
  expiry_of now undefined = some (now + 180000)
  expiry_of now null = some (now + 180000)
  expiry_of now (num (finite false m zero)) = some (now + m * 1000)
  expiry_of now ttl = d.shift now ttl

  -- `entryFor(route, status, source, nowMs)`; `none` is a date that is out of range.
  unfoldable pub entry_for : Fields → Value → Value → ℕ → Option Value
  unfolding expiry_of recovery_bounded_fresh_until
  entry_for route status source now = do
    observed_at ← d.to_iso_string now
    expiry ← expiry_of now (get_field "ttlSeconds" route)
    fresh_until ← d.to_iso_string (recovery_bounded_fresh_until (obj route) status expiry)
    some (
        obj (
          field "routeId" (get_field "id" route) (
            field "observedAt" (str observed_at) (
              field "freshUntil" (str fresh_until)
                (field "source" source (field "status" status end))))))
