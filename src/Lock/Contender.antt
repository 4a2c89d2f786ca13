-- ===== src/Lock/Contender.antt =====
-- lib/lock.js: one contender, from the claim of its ticket to the verdict of the election.
use Prim.Native.Char.{code}
use view_limits.Base.{
  ℕ, suc, ◌+◌, ◌-◌, ◌*◌, ◌^◌, max, Bool, false, not, ◌&&◌, ◌||◌, Option, none, some, List, [], ◌∷◌,
  ◌++◌, String, str_eq, ltb, leb, ◌==◌, if◌then◌else◌,
}
use view_limits.Base.Text.{text_le}

abbrev read_pid : ℕ → String → ℕ
read_pid acc String.[] = acc
read_pid acc (String.◌∷◌ c s) =
    let rest = read_pid (acc * 10 + (code c - 48)) s in
    if leb 48 (code c) && leb (code c) 57 then rest else acc

-- `Number(match[1])`: the digits with which the name of a ticket starts.
unfoldable pub pid_of : String → ℕ
pid_of name = read_pid 0 name

-- An element of `liveTickets`.
pub record Ticket : Type 0 where
  pub id : String
  pub pid : ℕ
  pub number : ℕ

-- The first call of `liveTickets` chooses a number; the second one looks for prior tickets.
pub data Pass : Type 0 where
  choosing : Pass
  numbered : (number : ℕ) → Pass

-- Where `acquireMutationLock` stands, with the locals that are live there.
pub data Pc : Type 0 where
  idle : Pc  -- before `writeFileSync(file, …)`
  entering : Pass → Pc  -- before the `readdirSync` of `liveTickets`
  scanning : Pass → (todo : List String) → (found : List Ticket) → Pc  -- the head of its loop
  reaping : Pass → (dead : String) → (todo : List String) → (found : List Ticket) → Pc
  reading : Pass → (peer : String) → (todo : List String) → (found : List Ticket) → Pc
  publishing : (number : ℕ) → Pc  -- before `renameSync`
  holding : (number : ℕ) → Pc  -- `{ ok: true }` was returned, and `release` not called
  over : Pc  -- refused, failed, released, or its process is gone

abbrev pub number_of : List Ticket → ℕ
number_of [] = 0
number_of (t ∷ ts) = max t.number (number_of ts)

-- `1 + Math.max(0, ...liveTickets(root, id).map((t) => t.number))`.
unfoldable pub next_number : List Ticket → ℕ
next_number found = suc (number_of found)

-- `Number.isSafeInteger`, of a number that is not negative.
abbrev pub is_safe : ℕ → Bool
is_safe n = ltb n (2 ^ 53)

-- `<` on texts.
abbrev pub text_lt : String → String → Bool
text_lt s t = not (text_le t s)

-- `t.number < number || (t.number === number && t.id < id)`.
unfoldable pub is_prior : ℕ → String → Ticket → Bool
is_prior number id t = ltb t.number number || t.number == number && text_lt t.id id

-- What the second pass decides: `acquired`, or `{ ok: false, error: 'held', ownerPid }`.
pub data Verdict : Type 0 where
  won : Verdict
  held : (owner_pid : Option ℕ) → Verdict

unfoldable pub has_choosing : List Ticket → Bool
has_choosing [] = false
has_choosing (t ∷ ts) = t.number == 0 || has_choosing ts

unfoldable pub find_prior : ℕ → String → List Ticket → Verdict
unfolding is_prior
find_prior number id [] = won
find_prior number id (t ∷ ts) =
    let rest = find_prior number id ts in if is_prior number id t then held (some t.pid) else rest

unfoldable pub elect : ℕ → String → List Ticket → Verdict
unfolding has_choosing find_prior
elect number id contenders =
    if has_choosing contenders then held none else find_prior number id contenders

-- `found.push({ id, pid, number })`.
abbrev pub push_ticket : String → ℕ → List Ticket → List Ticket
push_ticket id number found = found ++ record { id = id; pid = pid_of id; number = number } ∷ []

-- The loop body of `liveTickets` up to the file access: our own name is skipped, the ticket of an
-- absent process is removed, any other is read.
unfoldable pub visit : (ℕ → Bool) → String → Pass → String → List String → List Ticket → Pc
visit is_absent own pass id todo found =
    if str_eq id own
    then scanning pass todo found
    else if is_absent (pid_of id)
    then reaping pass id todo found
    else reading pass id todo found

-- The outcome of `JSON.parse(fs.readFileSync(file, 'utf8'))` and the push: `none` is a file that is
-- gone, which is skipped; any other failure to read or parse it leaves no document, which is
-- `some 0`; and a document has its number.
unfoldable pub read_ticket : Option ℕ → Pass → String → List String → List Ticket → Pc
read_ticket none pass id todo found = scanning pass todo found
read_ticket (some number) pass id todo found = scanning pass todo (push_ticket id number found)

-- The first pass ends with a number, which must be a safe integer.
unfoldable pub chosen : List Ticket → Pc
unfolding next_number
chosen found = if is_safe (next_number found) then publishing (next_number found) else over

unfoldable pub decided : Verdict → ℕ → Pc
decided won number = holding number
decided (held owner) number = over
