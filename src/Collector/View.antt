-- ===== src/Collector/View.antt =====
-- lib/collector.js: `classifyNative`, `applyNativeVerdict` and `collectView`.
use view_limits.Base.{
  Bool, not, Option, none, some, List, [], ◌∷◌, ◌++◌, String, includes, is_empty, if◌then◌else◌,
}
use view_limits.Base.Text.{Engine}
use view_limits.Value.{Value, str, arr, get, items, is_plain_object}
use view_limits.Gate.Time.{◌>>=◌}
use view_limits.Monitor.Validate.{Url}
use view_limits.Monitor.Revision.{Digest}
use view_limits.Cache.Entry.{Dates}
use view_limits.Collector.Plan.{Deps}
use view_limits.Collector.Collect.{Outcome, Reason, native_unavailable, Result, collect}

pub data NativeOutcome : Type 0 where
  completed failed unavailable unknown : NativeOutcome

append : String → String → String
append String.[] t = t
append (String.◌∷◌ c s) t = String.◌∷◌ c (append s t)

-- `failures.join(', ')`.
unfoldable pub join : List String → String
unfolding append
join [] = ""
join (s ∷ []) = s
join (s ∷ t ∷ ss) = append s (append ", " (join (t ∷ ss)))

pub record Verdict : Type 0 where
  pub outcome : NativeOutcome
  pub codes : List String
  pub error : Option String

-- What `observeNative` gives: the snapshot, and whether a live source of this run returned rows.
pub record Native : Type 0 where
  pub snapshot : Value
  pub is_observed : Bool

-- `NATIVE_FAILURE_CODES`.
unfoldable pub native_failure_codes : List String
native_failure_codes =
    "traycer-read-failed" ∷ "traycer-read-timeout" ∷ "traycer-output-malformed"
    ∷ "live-source-failed" ∷ "live-source-malformed" ∷ []

abbrev pub add_code : Value → List String → List String
add_code (str s) codes = if includes codes s then codes else codes ++ s ∷ []
add_code _ codes = codes

-- `codes`: the codes of the diagnostics, each once.
unfoldable pub codes_from : List String → List Value → List String
codes_from codes [] = codes
codes_from codes (d ∷ ds) = codes_from (add_code (get "code" d) codes) ds

unfoldable pub failures_in : List String → List String
unfolding native_failure_codes
failures_in [] = []
failures_in (c ∷ cs) =
    let rest = failures_in cs in if includes native_failure_codes c then c ∷ rest else rest

abbrev pub diagnostics_of : Value → List Value
diagnostics_of snap = elim (get "diagnostics" snap) [ arr vs ↦ items vs | _ ↦ [] ]

unfoldable pub verdict_from : List String → Bool → Verdict
unfolding join failures_in
verdict_from codes observed =
    if not (is_empty (failures_in codes))
    then record {
      outcome = failed;
      codes = failures_in codes;
      error = some (join (failures_in codes));
    }
    else if includes codes "traycer-cli-missing"
    then record { outcome = unavailable; codes = "traycer-cli-missing" ∷ []; error = none }
    else if observed
    then record { outcome = completed; codes = []; error = none }
    else record { outcome = unknown; codes = []; error = none }

abbrev pub no_native : Verdict
no_native = record {
  outcome = failed;
  codes = "native-unavailable" ∷ [];
  error = some "native observation unavailable";
}

-- `classifyNative(snap, observed)`.
unfoldable pub classify_native : Value → Bool → Verdict
unfolding codes_from verdict_from
classify_native snap observed =
    if is_plain_object snap
    then verdict_from (codes_from [] (diagnostics_of snap)) observed
    else no_native

-- What a view says of itself.
pub record Decided : Type 0 where
  pub outcome : Outcome
  pub reason : Option Reason
  pub error : Option String

abbrev pub external_of : Result → Decided
external_of x = record { outcome = x.outcome; reason = x.reason; error = x.error }

abbrev pub with_nothing : Verdict → NativeOutcome → Result → Decided
with_nothing v failed x =
    if is_empty x.routes
    then external_of x
    else record { outcome = Outcome.failed; reason = some native_unavailable; error = v.error }
with_nothing v completed x = record {
  outcome = Outcome.completed;
  reason = x.reason;
  error = x.error;
}
with_nothing v _ x = external_of x

abbrev pub with_all : NativeOutcome → Result → Decided
with_all failed x = record { outcome = Outcome.partial; reason = x.reason; error = x.error }
with_all _ x = external_of x

-- `applyNativeVerdict(external, verdict)`.
unfoldable pub apply_native_verdict : Result → Verdict → Decided
apply_native_verdict x v = elim x.outcome [
  | Outcome.no_credentials ↦ with_nothing v v.outcome x
  | Outcome.completed ↦ with_all v.outcome x
  | _ ↦ external_of x
]

-- The result of `collectView`.
pub record View : Type 0 where
  pub decided : Decided
  pub external : Result
  pub verdict : Verdict

module _ ⦃e : Engine⦄ ⦃u : Url⦄ ⦃g : Digest⦄ ⦃t : Dates⦄ where
  -- `collectView({ cfg, io })`, given the native observation that follows the collection.
  unfoldable pub collect_view : Deps → Value → (Result → Native) → Option View
  unfolding classify_native apply_native_verdict
  collect_view d cfg native = do
    external ← collect d cfg
    some (record {
      decided =
          apply_native_verdict external
            (classify_native (native external).snapshot (native external).is_observed);
      external = external;
      verdict = classify_native (native external).snapshot (native external).is_observed;
    })
