-- ===== src/Examples.antt =====
-- Concrete parameters and documents, on which the theorems of the other modules are applied.

mod Gates
mod Locks
mod Monitors
mod Profiles
mod Configs
mod Caches
mod Collections
mod Advice
mod Schedules
mod Scores
mod Verdicts
mod Dispatches
use view_limits.Base.{ℕ, Option, none, some, List, [], ◌∷◌, String}
use view_limits.Base.Text.{Engine}
use view_limits.Value.{Value, str, bool, arr, obj, cons, nil, end, field, Fields, Items, Printer}
use view_limits.Registry.{Registry, ModelEntry, HarnessEntry}
use view_limits.Gate.Time.{Clockwork}
use view_limits.Monitor.Validate.{Url}
use view_limits.Monitor.Revision.{Digest}

-- Texts that are in lower case already.
abbrev pub lower_case : Engine
lower_case = record { to_lower_case = λ s. s }

abbrev pub silent : Printer
silent = record { to_text = λ v. "" }

abbrev pub no_clockwork : Clockwork
no_clockwork = record { parse_other = λ s. none }

-- Every URL is read as a bare https one.
abbrev pub https_only : Url
https_only = record {
  parse_url = λ s.
      some (record { protocol = "https:"; username = ""; password = ""; search = ""; hash = "" });
}

abbrev pub one_digest : Digest
one_digest = record { digest = λ v. "d1" }

abbrev pub model_entry : ModelEntry
model_entry = record {
  id = "sonnet";
  family = "claude";
  aliases = [];
  task_capabilities = "code" ∷ [];
}

-- A registry with one model under every name, and no harness.
abbrev pub one_model : Registry
one_model = record {
  lookup_model = λ v. some model_entry;
  lookup_harness = λ v. none;
  canonical_harness_id = λ s. none;
  canonical_family_id = λ s. none;
}

abbrev pub empty : Value
empty = obj end

abbrev pub one_field : String → Value → Value
one_field k v = obj (field k v end)
