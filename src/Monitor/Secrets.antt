-- ===== src/Monitor/Secrets.antt =====
-- lib/monitor-schema.js: names and values that look like a credential, and paths that are safe to
-- keep. The regular expressions work on the code points of the text.
use view_limits.Base.{
  ℕ, zero, suc, ◌+◌, Bool, true, false, not, ◌&&◌, ◌||◌, List, [], ◌∷◌, String, if◌then◌else◌, leb,
  ◌==◌, length, any, all, includes,
}
use view_limits.Base.Text.{Engine, codes, is_space}
use view_limits.Value.{Value, str}

-- `SECRET_FIELD_NAMES`.
abbrev pub secret_field_names : List String
secret_field_names =
    "token" ∷ "apikey" ∷ "api_key" ∷ "secret" ∷ "password" ∷ "authorization" ∷ "bearer" ∷ "cookie"
    ∷ "sessionid" ∷ "session_id" ∷ "credential" ∷ "private_key" ∷ []

-- `SECRET_FIELD_NAMES.has(name.toLowerCase())`.
unfoldable pub is_secret_field : ⦃e : Engine⦄ → String → Bool
is_secret_field ⦃e⦄ name = includes secret_field_names (e.to_lower_case name)

abbrev is_upper : ℕ → Bool
is_upper c = leb b'A' c && leb c b'Z'

abbrev is_lower : ℕ → Bool
is_lower c = leb b'a' c && leb c b'z'

abbrev is_digit : ℕ → Bool
is_digit c = leb b'0' c && leb c b'9'

abbrev is_alnum : ℕ → Bool
is_alnum c = is_upper c || is_lower c || is_digit c

-- The letter that the flag `i` compares: only ASCII letters occur in the patterns.
abbrev lower : ℕ → ℕ
lower c = if is_upper c then c + 32 else c

abbrev lowered : List ℕ → List ℕ
lowered [] = []
lowered (c ∷ cs) = lower c ∷ lowered cs

unfoldable starts : List ℕ → List ℕ → Bool
starts s [] = true
starts [] (p ∷ ps) = false
starts (c ∷ cs) (p ∷ ps) = c == p && starts cs ps

unfoldable contains : List ℕ → List ℕ → Bool
unfolding starts
contains [] part = starts [] part
contains (c ∷ cs) part = starts (c ∷ cs) part || contains cs part

-- The words of `SECRET_OPTION_NAME_RE`, its optional separators written out.
abbrev secret_words : List String
secret_words =
    "token" ∷ "secret" ∷ "passw" ∷ "api_key" ∷ "api-key" ∷ "apikey" ∷ "auth" ∷ "bearer" ∷ "cookie"
    ∷ "credential" ∷ "private_key" ∷ "private-key" ∷ "privatekey" ∷ "session" ∷ "signature" ∷ []

-- `SECRET_OPTION_NAME_RE.test(name)`.
unfoldable pub is_secret_option_name : String → Bool
unfolding contains
is_secret_option_name name = any (λ w. contains (lowered (codes name)) (codes w)) secret_words

unfoldable skip_spaces : List ℕ → List ℕ
skip_spaces [] = []
skip_spaces (c ∷ cs) = let rest = skip_spaces cs in if is_space c then rest else c ∷ cs

-- `\s+\S` after the scheme.
abbrev has_word : List ℕ → Bool
has_word [] = false
has_word (c ∷ cs) = is_space c && not (length (skip_spaces cs) == 0)

unfoldable drop : ℕ → List ℕ → List ℕ
drop zero s = s
drop (suc n) [] = []
drop (suc n) (c ∷ cs) = drop n cs

-- How many characters of a class a text starts with.
unfoldable span : (ℕ → Bool) → List ℕ → ℕ
span p [] = 0
span p (c ∷ cs) = let rest = span p cs in if p c then suc rest else 0

abbrev is_token_char : ℕ → Bool
is_token_char c = is_alnum c || c == b'_' || c == b'-'

abbrev after : List ℕ → String → List ℕ
unfolding drop
after s prefix = drop (length (codes prefix)) s

abbrev is_scheme : List ℕ → String → Bool
unfolding starts
is_scheme s scheme = starts (lowered s) (codes scheme) && has_word (after s scheme)

-- `/^\s*(bearer|basic)\s+\S/i`.
unfoldable is_auth_header : List ℕ → Bool
unfolding skip_spaces starts drop
is_auth_header s = is_scheme (skip_spaces s) "bearer" || is_scheme (skip_spaces s) "basic"

-- `/^sk[-_][A-Za-z0-9_-]{2,}/`.
unfoldable is_sk_key : List ℕ → Bool
unfolding starts drop span
is_sk_key s =
    (starts s (codes "sk-") || starts s (codes "sk_")) && leb 2 (span is_token_char (after s "sk-"))

-- `/^eyJ[A-Za-z0-9_-]{4,}\.[A-Za-z0-9_-]{4,}/`.
unfoldable is_jwt : List ℕ → Bool
unfolding starts drop span
is_jwt s =
    let body = after s "eyJ" in
    let n = span is_token_char body in
    starts s (codes "eyJ")
    && (leb 4 n
        && (starts (drop n body) (codes ".") && leb 4 (span is_token_char (drop (suc n) body))))

-- `/^(xox[abpr]-|ghp_|gho_|github_pat_|AKIA[0-9A-Z]{8})/`.
unfoldable is_known_key : List ℕ → Bool
unfolding starts drop span
is_known_key s =
    any (λ w. starts s (codes w))
      ("xoxa-" ∷ "xoxb-" ∷ "xoxp-" ∷ "xoxr-" ∷ "ghp_" ∷ "gho_" ∷ "github_pat_" ∷ [])
    || (starts s (codes "AKIA") && leb 8 (span (λ c. is_digit c || is_upper c) (after s "AKIA")))

-- `SECRET_VALUE_RES.some((re) => re.test(v))`.
unfoldable pub is_secret_text : List ℕ → Bool
unfolding is_auth_header is_sk_key is_jwt is_known_key
is_secret_text s = is_auth_header s || is_sk_key s || is_jwt s || is_known_key s

-- `looksLikeSecretValue(v)`.
unfoldable pub looks_like_secret_value : Value → Bool
unfolding is_secret_text
looks_like_secret_value (str s) = is_secret_text (codes s)
looks_like_secret_value _ = false

-- `p.split('/')`.
unfoldable pub segments : List ℕ → List (List ℕ)
segments [] = [] ∷ []
segments (c ∷ cs) = let rest = segments cs in if c == b'/' then [] ∷ rest else extend c rest
  where
    extend : ℕ → List (List ℕ) → List (List ℕ)
    extend c [] = (c ∷ []) ∷ []
    extend c (seg ∷ segs) = (c ∷ seg) ∷ segs

abbrev is_path_char : ℕ → Bool
is_path_char c = is_alnum c || c == b'.' || c == b'_' || c == b'~' || c == b'-' || c == b'/'

-- `PATH_RE.test(p)`.
unfoldable pub is_absolute_path : List ℕ → Bool
is_absolute_path [] = false
is_absolute_path (c ∷ cs) = c == b'/' && (all is_path_char cs && leb (length cs) 255)

abbrev is_dot_segment : List ℕ → Bool
is_dot_segment (a ∷ []) = a == b'.'
is_dot_segment (a ∷ b ∷ []) = a == b'.' && b == b'.'
is_dot_segment _ = false

abbrev pub starts_double : List ℕ → Bool
starts_double (a ∷ b ∷ s) = a == b'/' && b == b'/'
starts_double _ = false

-- `pathError(p) === null`.
unfoldable pub is_path : Value → Bool
unfolding is_absolute_path segments is_secret_text
is_path (str p) =
    is_absolute_path (codes p)
    && (not (starts_double (codes p))
        && (not (any is_dot_segment (segments (codes p)))
            && not (any is_secret_text (segments (codes p)))))
is_path _ = false
