-- ===== src/Profile/Words.antt =====
-- lib/task-profile.js: reading a word of a vocabulary again gives the same word.
use mathlib.Core.List.{Memᴰ}
use view_limits.Base.{
  ℕ, Bool, true, false, not, ◌&&◌, ◌||◌, Option, none, some, List, [], ◌∷◌, String, str_eq, all,
  map, includes, includes-Memᴰ, leb, ◌==◌, ◌≡◌, refl, arith, ap, ◌∙◌, eq_iff, eq_refl,
}
use view_limits.Base.Text.{Engine, fold, trim, codes, is_blank}
use view_limits.Value.{Value, str, get, get_field}
use view_limits.Facts.{norm}
use view_limits.Profile.Dimensions.{Dimension, dimensions, word_of, or_text, in_words}
use view_limits.Profile.Response.{collect}

-- A letter from a to z, or a hyphen.
abbrev is_lower : ℕ → Bool
is_lower c = leb 97 c && leb c 122 || c == 45

-- The engine leaves texts of lower-case letters and hyphens as they are.
pub record IsLowering (e : Engine) : Type 0 where
  pub keeps : (s : String) → all is_lower (codes s) ≡ true → e.to_lower_case s ≡ s

abbrev is_plain_word : String → Bool
is_plain_word w = str_eq (trim w) w && (all is_lower (codes w) && not (is_blank w))

table_plain : all (λ d. all is_plain_word d.words) dimensions ≡ true
unfolding dimensions trim
table_plain = refl

-- No dimension has the name of a later one.
abbrev is_distinct : List Dimension → Bool
is_distinct [] = true
is_distinct (d ∷ ds) = not (includes (map Dimension.name ds) d.name) && is_distinct ds

pub table_distinct : is_distinct dimensions ≡ true
unfolding dimensions
table_distinct = refl

all-Memᴰ {ℓ} :
    {A : Type ℓ} (p : A → Bool) (xs : List A) (x : A) → all p xs ≡ true → Memᴰ x xs → p x ≡ true
all-Memᴰ p [] x h m = elim m [ ]
all-Memᴰ p (y ∷ ys) x h (Memᴰ.head e) = ap p e ∙ ground arith
all-Memᴰ p (y ∷ ys) x h (Memᴰ.tail m) = all-Memᴰ p ys x (ground arith) m

name-includes :
    (ds : List Dimension) (d : Dimension)
    → Memᴰ d ds
    → includes (map Dimension.name ds) d.name ≡ true
name-includes [] d m = elim m [ ]
name-includes (c ∷ ds) d (Memᴰ.head e) = ground (arith, ap Dimension.name e, eq_iff c.name d.name)
name-includes (c ∷ ds) d (Memᴰ.tail m) = ground (arith, name-includes ds d m)

names_apart :
    (c : Dimension) (ds : List Dimension) (d : Dimension)
    → is_distinct (c ∷ ds) ≡ true
    → Memᴰ d ds
    → str_eq c.name d.name ≡ false
names_apart c ds d h m = ground (arith, eq_iff c.name d.name, name-includes ds d m)

table_word :
    (d : Dimension) (w : String)
    → Memᴰ d dimensions
    → includes d.words w ≡ true
    → is_plain_word w ≡ true
table_word d w m h =
    all-Memᴰ is_plain_word d.words w
      (all-Memᴰ (λ d. all is_plain_word d.words) dimensions d table_plain m)
      (includes-Memᴰ d.words w h)

in_words-includes :
    (words : List String) (o : Option String) (w : String)
    → in_words words o ≡ some w
    → includes words w ≡ true
in_words-includes words none w h = absurd (ground arith)
in_words-includes words (some n) w h = ground arith

module _ ⦃e : Engine⦄ where
  pub get-collect :
      (profile : Value) (ds : List Dimension) (d : Dimension)
      → is_distinct ds ≡ true
      → Memᴰ d ds
      → get_field d.name (collect profile ds)
        ≡ str (or_text (word_of d.words (get d.name profile)) "")
  unfolding collect
  get-collect profile [] d h m = elim m [ ]
  get-collect profile (c ∷ ds) d h (Memᴰ.head q) = rw (q, eq_refl c.name) refl
  get-collect profile (c ∷ ds) d h (Memᴰ.tail m) =
      rw (names_apart c ds d h m) (get-collect profile ds d (ground arith) m)

  fold-plain : IsLowering e → (w : String) → is_plain_word w ≡ true → fold w ≡ w
  unfolding fold
  fold-plain l w p =
      ap e.to_lower_case ((eq_iff (trim w) w).0 (ground arith)) ∙ l.keeps w (ground arith)

  norm-plain : IsLowering e → (w : String) → is_plain_word w ≡ true → norm (str w) ≡ some w
  unfolding norm
  norm-plain l w p = rw (blank w p) (ap some (fold-plain l w p))
    where
      blank : (w : String) → is_plain_word w ≡ true → is_blank w ≡ false
      blank w p = ground arith

  pub word_of-plain :
      IsLowering e
      → (d : Dimension) (v : Value) (w : String) → Memᴰ d dimensions
      → word_of d.words v ≡ some w
      → word_of d.words (str w) ≡ some w
  unfolding word_of
  word_of-plain l d v w m h =
      ap (in_words d.words) (norm-plain l w (table_word d w m i)) ∙ rw (i) refl
    where
      i : includes d.words w ≡ true
      i = in_words-includes d.words (norm v) w h
