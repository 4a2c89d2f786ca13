-- ===== src/Recommend/Candidates.antt =====
-- lib/recommend.js: the ids of the candidates, and what hard eligibility makes of each.
use view_limits.Base.{
  ℕ, zero, suc, ◌/◌, ◌%◌, Bool, true, false, ◌||◌, Option, none, some, List, [], ◌∷◌, String,
  str_eq, if◌then◌else◌, ltb, ◌==◌,
}
use Prim.Native.String
use view_limits.Base.Sort.{sort_by}
use view_limits.Base.Text.{Engine, text_le}
use view_limits.Value.{Value, str, arr, obj, Fields, end, field, get, text_of, Items, cons, nil}
use view_limits.Registry.{Registry}
use view_limits.Eligibility.Verdict.{Verdict, evaluate, Result, is_eligible, is_unresolved}

-- A candidate with its id: `{ cand, id }`.
pub record Candidate : Type 0 where
  pub id : String
  pub document : Value

-- A verdict, or the rejection of an id that two candidates share.
pub data Judgement : Type 0 where
  id_duplicate : Judgement
  judged : Verdict → Judgement

pub record Judged : Type 0 where
  pub id : String
  pub judgement : Judgement

abbrev digit : ℕ → String
digit n =
    if n == 0
    then "0"
    else if n == 1
    then "1"
    else if n == 2
    then "2"
    else if n == 3
    then "3"
    else if n == 4
    then "4"
    else if n == 5
    then "5"
    else if n == 6
    then "6"
    else if n == 7
    then "7"
    else if n == 8
    then "8"
    else "9"

-- A number in decimal; as much fuel as the number is enough.
decimal : ℕ → ℕ → String
decimal zero n = digit n
decimal (suc fuel) n =
    let front = decimal fuel (n / 10) in
    if ltb n 10 then digit n else String.◌++◌ front (digit (n % 10))

unfoldable pub id_or_index : Option String → ℕ → String
unfolding decimal
id_or_index none index = String.◌++◌ "candidate-" (decimal index index)
id_or_index (some id) index = id

-- `candidateId(cand, index)`.
unfoldable pub candidate_id : Value → ℕ → String
unfolding id_or_index
candidate_id cand index = id_or_index (text_of (get "id" cand)) index

unfoldable pub with_ids : ℕ → List Value → List Candidate
unfolding candidate_id
with_ids index [] = []
with_ids index (v ∷ vs) =
    record { id = candidate_id v index; document = v } ∷ with_ids (suc index) vs

-- How often an id is there: `idCount`.
unfoldable pub count_id : String → List Candidate → ℕ
count_id id [] = 0
count_id id (c ∷ cs) = let rest = count_id id cs in if str_eq c.id id then suc rest else rest

-- `duplicateIds.has(id)`.
unfoldable pub is_duplicate : String → List Candidate → Bool
unfolding count_id
is_duplicate id all = ltb 1 (count_id id all)

pub record Disposed : Type 0 where
  pub all : List Judged
  pub eligible : List Candidate
  pub undecided : List Judged
  pub rejected : List Judged

abbrev pub is_eligible_verdict : Result → Bool
is_eligible_verdict is_eligible = true
is_eligible_verdict _ = false

abbrev is_unresolved_verdict : Result → Bool
is_unresolved_verdict is_unresolved = true
is_unresolved_verdict _ = false

abbrev pub is_eligible_judgement : Judgement → Bool
is_eligible_judgement id_duplicate = false
is_eligible_judgement (judged v) = is_eligible_verdict v.result

-- `verdictById.get(id)`: the entry that was set last.
unfoldable pub find_judged : String → List Judged → Option Judged
find_judged id [] = none
find_judged id (v ∷ vs) =
    let rest = find_judged id vs in
    elim rest [ some l ↦ some l | none ↦ if str_eq v.id id then some v else none ]

-- `candById.get(id)`.
unfoldable pub find_candidate : String → List Candidate → Option Value
find_candidate id [] = none
find_candidate id (c ∷ cs) =
    let rest = find_candidate id cs in
    elim rest [ some l ↦ some l | none ↦ if str_eq c.id id then some c.document else none ]

abbrev judged_le : Judged → Judged → Bool
judged_le a b = text_le a.id b.id

abbrev members_of : Value → Fields
members_of (obj fs) = fs
members_of _ = end

-- `{ ...cand, id }`. The index keys of a candidate that is a text or an array are left out: no
-- scorer reads them.
abbrev pub document_of : Candidate → Value
document_of c = obj (field "id" (str c.id) (members_of c.document))

unfoldable pub documents_in : List Candidate → Items
documents_in [] = nil
documents_in (c ∷ cs) = cons (document_of c) (documents_in cs)

unfoldable pub documents : List Candidate → Value
unfolding documents_in
documents cs = arr (documents_in cs)

module _ ⦃e : Engine⦄ where
  unfoldable pub judgement_of : Value → Registry → List Candidate → Candidate → Judgement
  unfolding is_duplicate
  judgement_of policy reg all c =
      if is_duplicate c.id all then id_duplicate else judged (evaluate c.document policy reg)

  abbrev pub add_judged : Judgement → Candidate → Disposed → Disposed
  add_judged id_duplicate c d = record d {
    all = record { id = c.id; judgement = id_duplicate } ∷ d.all;
    rejected = record { id = c.id; judgement = id_duplicate } ∷ d.rejected;
  }
  add_judged (judged v) c d =
      let entry : Judged = record { id = c.id; judgement = judged v } in
      record {
        all = entry ∷ d.all;
        eligible = if is_eligible_verdict v.result then c ∷ d.eligible else d.eligible;
        undecided = if is_unresolved_verdict v.result then entry ∷ d.undecided else d.undecided;
        rejected =
            if is_eligible_verdict v.result || is_unresolved_verdict v.result
            then d.rejected
            else entry ∷ d.rejected;
      }

  -- The loop over the candidates; each list is in their order.
  unfoldable pub judge_all : Value → Registry → List Candidate → List Candidate → Disposed
  unfolding judgement_of
  judge_all policy reg all [] = record { all = []; eligible = []; undecided = []; rejected = [] }
  judge_all policy reg all (c ∷ cs) =
      add_judged (judgement_of policy reg all c) c (judge_all policy reg all cs)

  -- The verdicts on the candidates, `undecided` and `rejected` by id.
  unfoldable pub dispose : Value → Registry → List Value → Disposed
  unfolding with_ids judge_all
  dispose policy reg candidates =
      let d = judge_all policy reg (with_ids 0 candidates) (with_ids 0 candidates) in
      record d {
        undecided = sort_by judged_le d.undecided;
        rejected = sort_by judged_le d.rejected;
      }
