-- ===== src/Gate/RoundTrip.antt =====
-- `STRICT_ISO_RE` of lib/gate.js against the way a timestamp is written.
use view_limits.Base.{
  ℕ, ◌+◌, ◌/◌, ◌%◌, ◌<◌, Bool, true, false, ◌&&◌, some, List, [], ◌∷◌, if◌then◌else◌, ltb, all, ◌≡◌,
  refl, ap, arith,
}
use view_limits.Gate.Time.{
  Stamp, Zone, utc, offset, fixed, expect, digits, fraction_of, zone_of, offset_of, match_stamp,
  is_digit, some_digits, skip_colon,
}

-- Two and four decimal digits.
abbrev pub two : ℕ → List ℕ → List ℕ
two n rest = (b'0' + n / 10) ∷ (b'0' + n % 10) ∷ rest

abbrev pub four : ℕ → List ℕ → List ℕ
four n rest = two (n / 100) (two (n % 100) rest)

abbrev pub write_digits : List ℕ → List ℕ → List ℕ
write_digits [] rest = rest
write_digits (d ∷ ds) rest = (b'0' + d) ∷ write_digits ds rest

abbrev pub write_fraction : List ℕ → List ℕ → List ℕ
write_fraction [] rest = rest
write_fraction (d ∷ ds) rest = b'.' ∷ write_digits (d ∷ ds) rest

abbrev pub write_zone : Zone → List ℕ
write_zone utc = b'Z' ∷ []
write_zone (offset negative colon hours minutes) =
    (if negative then b'-' else b'+')
    ∷ two hours (if colon then b':' ∷ two minutes [] else two minutes [])

-- `YYYY-MM-DDTHH:MM:SS`, the fraction if there is one, and the zone.
pub write_stamp : Stamp → List ℕ
write_stamp t = four t.year (
    b'-'
    ∷ two t.month (
        b'-'
        ∷ two t.day (
            b'T'
            ∷ two t.hour (
                b':'
                ∷ two t.minute
                    (b':' ∷ two t.second (write_fraction t.fraction (write_zone t.zone)))))))

abbrev is_figure : ℕ → Bool
is_figure d = ltb d 10

abbrev fits_zone : Zone → Bool
fits_zone utc = true
fits_zone (offset negative colon hours minutes) = ltb hours 100 && ltb minutes 100

-- The fields have the widths that the format gives them.
pub record IsWritable (t : Stamp) : Type 0 where
  pub year_fits : t.year < 10000
  pub month_fits : t.month < 100
  pub day_fits : t.day < 100
  pub hour_fits : t.hour < 100
  pub minute_fits : t.minute < 100
  pub second_fits : t.second < 100
  pub fraction_fits : all is_figure t.fraction ≡ true
  pub zone_fits : fits_zone t.zone ≡ true

read_two : (n : ℕ) (rest : List ℕ) → n < 100 → fixed 2 0 (two n rest) ≡ some (n, rest)
unfolding fixed
read_two n rest h = ground (arith, h)

read_four : (n : ℕ) (rest : List ℕ) → n < 10000 → fixed 4 0 (four n rest) ≡ some (n, rest)
unfolding fixed
read_four n rest h = ground (arith, h)

abbrev colon_minutes : Bool → ℕ → List ℕ
colon_minutes colon minutes = if colon then b':' ∷ two minutes [] else two minutes []

read_colon :
    (colon : Bool) (minutes : ℕ)
    → minutes < 100
    → skip_colon (colon_minutes colon minutes) ≡ (colon, two minutes [])
read_colon true minutes h = refl
read_colon false minutes h = ground (arith, h)

read_offset :
    (negative colon : Bool) (hours minutes : ℕ)
    → hours < 100
    → minutes < 100
    → offset_of negative (two hours (colon_minutes colon minutes))
      ≡ some (offset negative colon hours minutes)
unfolding offset_of
read_offset negative colon hours minutes h m =
    rw
      (
        read_two hours (colon_minutes colon minutes) h,
        read_colon colon minutes m,
        read_two minutes [] m,
      )
      refl

read_zone : (z : Zone) → fits_zone z ≡ true → zone_of (write_zone z) ≡ some z
unfolding zone_of
read_zone utc h = refl
read_zone (offset true colon hours minutes) h =
    read_offset true colon hours minutes (ground (arith, h)) (ground (arith, h))
read_zone (offset false colon hours minutes) h =
    read_offset false colon hours minutes (ground (arith, h)) (ground (arith, h))

-- What follows the digits does not start with one.
zone_stops : (z : Zone) → digits (write_zone z) ≡ ([], write_zone z)
unfolding digits
zone_stops utc = refl
zone_stops (offset true colon hours minutes) = refl
zone_stops (offset false colon hours minutes) = refl

read_digits :
    (ds : List ℕ) (z : Zone)
    → all is_figure ds ≡ true
    → digits (write_digits ds (write_zone z)) ≡ (ds, write_zone z)
unfolding digits
read_digits [] z h = zone_stops z
read_digits (d ∷ ds) z h = rw (read_digits ds z (ground (arith, h)), figure) (ground arith)
  where
    figure : is_digit (b'0' + d) ≡ true
    figure = ground (arith, h)

read_fraction :
    (ds : List ℕ) (z : Zone)
    → all is_figure ds ≡ true
    → fraction_of (write_fraction ds (write_zone z)) ≡ some (ds, write_zone z)
unfolding fraction_of
read_fraction [] utc h = refl
read_fraction [] (offset true colon hours minutes) h = refl
read_fraction [] (offset false colon hours minutes) h = refl
read_fraction (d ∷ ds) z h = ap some_digits (read_digits (d ∷ ds) z h)

-- Every stamp whose fields have the widths of the format is read back as it was written: with or
-- without a fraction, with `Z` or an offset, with or without a colon in the offset.
pub match_stamp-write_stamp : (t : Stamp) → IsWritable t → match_stamp (write_stamp t) ≡ some t
unfolding match_stamp expect write_stamp
match_stamp-write_stamp t w =
    rw
      (
        read_four t.year _ w.year_fits,
        read_two t.month _ w.month_fits,
        read_two t.day _ w.day_fits,
        read_two t.hour _ w.hour_fits,
        read_two t.minute _ w.minute_fits,
        read_two t.second _ w.second_fits,
        read_fraction t.fraction t.zone w.fraction_fits,
        read_zone t.zone w.zone_fits,
      )
      refl
