-- ===== src/Jev/Verified.antt =====
-- lib/jev-client.js: what stands behind a classification and behind a verified model.
use mathlib.Core.List.{Memᴰ}
use view_limits.Base.{
  Bool, true, false, ◌&&◌, Option, none, some, List, [], ◌∷◌, String, ◌≡◌, refl, ap, ◌∙◌, sym,
  arith, Bool-cases, inl, inr, ◌⊎◌, if◌then◌else◌,
}
use view_limits.Base.Text.{Engine}
use view_limits.Value.{Value, get, Fields, is_plain_object, is_text, is_true, Number}
use view_limits.Facts.{norm}
use view_limits.Score.Bounds.{some_injective}
use view_limits.Profile.Response.{Response, accepted, refused, validate_classifier_response}
use view_limits.Jev.{
  Json, Answer, threw, answered, Classified, classified, unavailable, classify, accept,
  judge_response, judge_payload, parsed, below, floor_of, is_http_error, is_malformed, verified,
  verify_model_support, find_row, is_supported, rows_of, same_name, judge_row, judge_rows,
}

module _ ⦃e : Engine⦄ ⦃j : Json⦄ where
  -- What stands behind a classification.
  pub record Heard (config : Value) (transport : Option Answer) (fs : Fields) (c : Value)
      (s : Option String) : Type 0 where
    pub response : Value
    pub payload : Value
    pub model : is_text (get "model" config) ≡ true
    pub endpoint : is_text (get "baseUrl" config) ≡ true
    pub answer : transport ≡ some (answered response)
    pub success : is_http_error response ≡ false
    pub body : parsed (get "body" response) ≡ some payload
    pub valid : validate_classifier_response payload ≡ accepted fs c s
    pub floor : below c (floor_of config) ≡ false

  accept-classified :
      {fs : Fields} {c : Value} {s : Option String} (r : Response) (floor : Number)
      → accept r floor ≡ classified fs c s
      → (r ≡ accepted fs c s) × (below c floor ≡ false)
  unfolding accept
  accept-classified (refused vs) floor h = absurd (ground arith)
  accept-classified (accepted p c s) floor h = ground arith

  payload-classified :
      {fs : Fields} {c : Value} {s : Option String} (o : Option Value) (floor : Number)
      → judge_payload o floor ≡ classified fs c s
      → (v : Value) × (o ≡ some v)
        × (validate_classifier_response v ≡ accepted fs c s)
        × (below c floor ≡ false)
  payload-classified none floor h = absurd (ground arith)
  payload-classified (some v) floor h = elim (Bool-cases (is_plain_object v)) [
    | inl t ↦
        let (a, b) = accept-classified (validate_classifier_response v) floor (sym (given t) ∙ h) in
        (v, refl, a, b)
    | inr f ↦ absurd (ground arith)
  ]
    where
      given :
          is_plain_object v ≡ true
          → judge_payload (some v) floor ≡ accept (validate_classifier_response v) floor
      given t = rw (t) refl

  -- A guard that refuses has not refused.
  guarded :
      {fs : Fields} {c : Value} {s : Option String} (b : Bool) (why : String) (x : Classified)
      → (if b then unavailable why else x) ≡ classified fs c s
      → (b ≡ false) × (x ≡ classified fs c s)
  guarded true why x h = absurd (ground arith)
  guarded false why x h = (refl, h)

  response-classified :
      {fs : Fields} {c : Value} {s : Option String} (res : Value) (floor : Number)
      → judge_response res floor ≡ classified fs c s
      → (is_http_error res ≡ false)
        × (judge_payload (parsed (get "body" res)) floor ≡ classified fs c s)
  unfolding judge_response
  response-classified res floor h =
      let (a, p) = guarded (is_plain_object res && is_true (get "timedOut" res)) _ _ h in
      let (b, q) = guarded (is_malformed res) _ _ p in guarded (is_http_error res) _ _ q

  heard :
      (config : Value) (transport : Option Answer)
      → {fs : Fields} {c : Value} {s : Option String}
      → classify config transport ≡ classified fs c s
      → (is_text (get "model" config) ≡ true)
        × (is_text (get "baseUrl" config) ≡ true)
        × ((res : Value) × (transport ≡ some (answered res))
            × (judge_response res (floor_of config) ≡ classified fs c s))
  unfolding classify
  heard config none h = absurd (ground arith)
  heard config (some (threw e)) h = absurd (ground arith)
  heard config (some (answered res)) h = (ground arith, ground arith, (res, refl, ground arith))

  -- A classification is given only when a model and an endpoint are configured, the transport
  -- answered with no error status, the body was read as a payload that is valid with that profile,
  -- confidence and suggestion, and the confidence is not below the floor.
  pub classify-Heard :
      (config : Value) (transport : Option Answer) (fs : Fields) (c : Value) (s : Option String)
      → classify config transport ≡ classified fs c s
      → Heard config transport fs c s
  classify-Heard config transport fs c s h =
      let (m, b, (res, t, r)) = heard config transport h in
      let (ok, p) = response-classified res (floor_of config) r in
      let (v, q, a, l) = payload-classified (parsed (get "body" res)) (floor_of config) p in
      record {
        response = res;
        payload = v;
        model = m;
        endpoint = b;
        answer = t;
        success = ok;
        body = q;
        valid = a;
        floor = l;
      }

picked :
    (b : Bool) (x r : Value) (rest : Option Value)
    → (if b then some x else rest) ≡ some r
    → ((b ≡ true) × (x ≡ r)) ⊎ (rest ≡ some r)
picked true x r rest h = inl (refl, some_injective h)
picked false x r rest h = inr h

module _ ⦃e : Engine⦄ where
  -- What stands behind a verified model.
  pub record Listed (config : Value) (catalog : Option Answer) (model : Value) : Type 0 where
    pub response : Value
    pub rows : List Value
    pub row : Value
    pub answer : catalog ≡ some (answered response)
    pub data_rows : rows_of (get "data" response) ≡ some rows
    pub member : Memᴰ row rows
    pub same : same_name (norm (get "id" row)) (norm (get "model" config)) ≡ true
    pub supported : is_supported row ≡ true
    pub id : get "id" row ≡ model

  find_row-Memᴰ :
      (wanted : Option String) (rows : List Value) (r : Value)
      → find_row wanted rows ≡ some r
      → Memᴰ r rows × (same_name (norm (get "id" r)) wanted ≡ true)
  unfolding find_row
  find_row-Memᴰ wanted [] r h = absurd (ground arith)
  find_row-Memᴰ wanted (x ∷ xs) r h =
      elim (picked (is_plain_object x && same_name (norm (get "id" x)) wanted) x r
        (find_row wanted xs) h) [
          | inl (t, e) ↦ (
            Memᴰ.head (sym e),
            ap (λ y. same_name (norm (get "id" y)) wanted) (sym e) ∙ ground arith,
          )
          | inr k ↦ let (m, q) = find_row-Memᴰ wanted xs r k in (Memᴰ.tail m, q)
        ]

  row-verified :
      (model : Value) (o : Option Value)
      → judge_row o ≡ verified model
      → (r : Value) × (o ≡ some r) × (is_supported r ≡ true) × (get "id" r ≡ model)
  row-verified model none h = absurd (ground arith)
  row-verified model (some r) h = (r, refl, ground arith, ground arith)

  rows-verified :
      (model : Value) (o : Option (List Value)) (wanted : Option String)
      → judge_rows o wanted ≡ verified model
      → (rows : List Value) × (o ≡ some rows) × (judge_row (find_row wanted rows) ≡ verified model)
  rows-verified model none wanted h = absurd (ground arith)
  rows-verified model (some rows) wanted h = (rows, refl, h)

  catalog-verified :
      (config : Value) (catalog : Option Answer) (model : Value)
      → verify_model_support config catalog ≡ verified model
      → (res : Value) × (catalog ≡ some (answered res))
        × (judge_rows (rows_of (get "data" res)) (norm (get "model" config)) ≡ verified model)
  unfolding verify_model_support
  catalog-verified config none model h = absurd (ground arith)
  catalog-verified config (some (threw e)) model h = absurd (ground arith)
  catalog-verified config (some (answered res)) model h = (res, refl, ground arith)

  -- A model is verified only when the catalog lists a row whose id is the configured model, up to
  -- case and outer white space, and that row supports structured output.
  pub verify_model_support-Listed :
      (config : Value) (catalog : Option Answer) (model : Value)
      → verify_model_support config catalog ≡ verified model
      → Listed config catalog model
  verify_model_support-Listed config catalog model h =
      let (res, a, p) = catalog-verified config catalog model h in
      let (rows, d, q) =
        rows-verified model (rows_of (get "data" res)) (norm (get "model" config)) p in
      let (row, f, s, i) = row-verified model (find_row (norm (get "model" config)) rows) q in
      let (m, n) = find_row-Memᴰ (norm (get "model" config)) rows row f in
      record {
        response = res;
        rows = rows;
        row = row;
        answer = a;
        data_rows = d;
        member = m;
        same = n;
        supported = s;
        id = i;
      }
