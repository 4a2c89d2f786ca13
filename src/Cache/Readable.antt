-- ===== src/Cache/Readable.antt =====
-- lib/cache.js: what the readers of the cache rely on, whatever the file holds.
use view_limits.Base.{
  Bool, true, false, Option, none, some, String, ◌≡◌, ◌≢◌, refl, ◌⊎◌, inl, inr, arith, Bool-cases,
  str_eq, if◌then◌else◌,
}
use view_limits.Value.{
  Value, undefined, null, bool, num, str, arr, obj, Fields, end, field, get, get_field,
  is_plain_object,
}
use view_limits.Cache.Entry.{object_entries, with_routes, read_cache}

-- A cache that its readers can use, with the entries of a document in it.
pub record IsReadable (doc : Option Value) (cache : Value) : Type 0 where
  pub entries : Fields
  pub has_entries : get "routes" cache ≡ obj entries
  pub only_objects :
      (id : String)
      → (get_field id entries ≡ undefined) ⊎ ((entry : Fields) × (get_field id entries ≡ obj entry))
  pub keeps :
      (members routes : Fields) (id : String) (entry : Fields)
      → doc ≡ some (obj members)
      → get_field "routes" members ≡ obj routes
      → get_field id routes ≡ obj entry
      → get_field id entries ≡ obj entry

kept_member :
    (b : Bool) (id k : String) (v : Value) (rest : Fields) (entry : Fields)
    → is_plain_object v ≡ b
    → (str_eq k id ≡ false → get_field id rest ≡ obj entry)
    → get_field id (field k v end) ≡ obj entry ⊎ (str_eq k id ≡ false)
    → get_field id (if b then field k v rest else rest) ≡ obj entry
kept_member true id k v rest entry q h c = ground arith
kept_member false id k v rest entry q h c = ground arith

object_entries-objects :
    (fs : Fields) (id : String)
    → (get_field id (object_entries fs) ≡ undefined)
      ⊎ ((entry : Fields) × (get_field id (object_entries fs) ≡ obj entry))
unfolding object_entries
object_entries-objects end id = inl refl
object_entries-objects (field k (obj e) rest) id = elim (Bool-cases (str_eq k id)) [
  | inl t ↦ inr (e, ground (arith, t))
  | inr f ↦ rw (f) (object_entries-objects rest id)
]
object_entries-objects (field k undefined rest) id = object_entries-objects rest id
object_entries-objects (field k null rest) id = object_entries-objects rest id
object_entries-objects (field k (bool b) rest) id = object_entries-objects rest id
object_entries-objects (field k (num n) rest) id = object_entries-objects rest id
object_entries-objects (field k (str s) rest) id = object_entries-objects rest id
object_entries-objects (field k (arr vs) rest) id = object_entries-objects rest id

object_entries-keeps :
    (fs : Fields) (id : String) (entry : Fields)
    → get_field id fs ≡ obj entry
    → get_field id (object_entries fs) ≡ obj entry
unfolding object_entries
object_entries-keeps end id entry h = ground arith
object_entries-keeps (field k v rest) id entry h =
    kept_member (is_plain_object v) id k v (object_entries rest) entry refl
      (λ f. object_entries-keeps rest id entry (ground (arith, h, f)))
      (elim (Bool-cases (str_eq k id)) [ inl t ↦ inl (ground (arith, h, t)) | inr f ↦ inr f ])

absent :
    (doc : Option Value) (cache : Value)
    → get "routes" cache ≡ obj end
    → ((members routes : Fields)
        → doc ≡ some (obj members)
        → get_field "routes" members ≢ obj routes)
    → IsReadable doc cache
absent doc cache q other = record {
  entries = end;
  has_entries = q;
  only_objects = λ id. inl refl;
  keeps = λ members routes id entry d r h. absurd (other members routes d r);
}

with_routes-IsReadable :
    (doc : Fields) (v : Value)
    → get_field "routes" doc ≡ v
    → IsReadable (some (obj doc)) (with_routes doc v)
with_routes-IsReadable doc (obj routes) q = record {
  entries = object_entries routes;
  has_entries = refl;
  only_objects = object_entries-objects routes;
  keeps = λ members same id entry d r h.
      object_entries-keeps routes id entry (ground (arith, q, d, r, h));
}
with_routes-IsReadable doc undefined q = absent _ _ refl (λ m r d h. ground (arith, q, d, h))
with_routes-IsReadable doc null q = absent _ _ refl (λ m r d h. ground (arith, q, d, h))
with_routes-IsReadable doc (bool b) q = absent _ _ refl (λ m r d h. ground (arith, q, d, h))
with_routes-IsReadable doc (num n) q = absent _ _ refl (λ m r d h. ground (arith, q, d, h))
with_routes-IsReadable doc (str s) q = absent _ _ refl (λ m r d h. ground (arith, q, d, h))
with_routes-IsReadable doc (arr vs) q = absent _ _ refl (λ m r d h. ground (arith, q, d, h))

-- Whatever the file of the cache holds, also nothing or no JSON, the cache that is read has an
-- object of routes whose members are all objects, and it has every object entry of the document.
pub read_cache-IsReadable : (doc : Option Value) → IsReadable doc (read_cache doc)
unfolding read_cache
read_cache-IsReadable none = absent _ _ refl (λ m r d h. ground arith)
read_cache-IsReadable (some (obj doc)) = with_routes-IsReadable doc (get_field "routes" doc) refl
read_cache-IsReadable (some undefined) = absent _ _ refl (λ m r d h. ground arith)
read_cache-IsReadable (some null) = absent _ _ refl (λ m r d h. ground arith)
read_cache-IsReadable (some (bool b)) = absent _ _ refl (λ m r d h. ground arith)
read_cache-IsReadable (some (num n)) = absent _ _ refl (λ m r d h. ground arith)
read_cache-IsReadable (some (str s)) = absent _ _ refl (λ m r d h. ground arith)
read_cache-IsReadable (some (arr vs)) = absent _ _ refl (λ m r d h. ground arith)
