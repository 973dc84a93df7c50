-- ===== src/Capture/Format.antt =====
-- A concrete manifest format: printed objects on one line, read back from the right.
use tactical_gateway.Base.{
  ℕ, ◌+◌, ◌-◌, ◌≡◌, refl, ap, false, Option, none, some, [], ◌∷◌, ◌++◌, append-nil, Text, map, All,
  arith, ◌==◌, if◌then◌else◌,
}
use tactical_gateway.HashChain.{Datetime}
use tactical_gateway.HashChain.Samples.{hashing, plain_iso}
use tactical_gateway.Capture.{JsonValue, str, num, JsonObject, is_line_end, ManifestFormat}

abbrev pub shift : Text → Text
shift = map (λ c. c + 0x4000)

-- A comma before each field, and `S` or `N` between its name and its value.
unfoldable pub print : JsonObject → Text
print [] = []
print ((k, str t) ∷ o) = b',' ∷ (shift k ++ (b'S' ∷ (shift t ++ print o)))
print ((k, num n) ∷ o) = b',' ∷ (shift k ++ (b'N' ∷ (n + 0x4000) ∷ print o))

pub record Reading : Type 0 where
  pub chars : Text
  pub value : JsonValue
  pub out : JsonObject

abbrev pub head_or_zero : Text → ℕ
head_or_zero [] = 0
head_or_zero (c ∷ _) = c

abbrev pub read_char : ℕ → Reading → Reading
read_char c r =
    if c == b','
    then record { chars = []; value = r.value; out = (r.chars, r.value) ∷ r.out }
    else if c == b'S'
    then record { chars = []; value = str r.chars; out = r.out }
    else if c == b'N'
    then record { chars = []; value = num (head_or_zero r.chars); out = r.out }
    else record { chars = (c - 0x4000) ∷ r.chars; value = r.value; out = r.out }

unfoldable pub read : Text → Reading
read [] = record { chars = []; value = num 0; out = [] }
read (c ∷ t) = read_char c (read t)

read-shift : (s t : Text) → read (shift s ++ t) ≡ record (read t) { chars = s ++ (read t).chars }
unfolding read
read-shift [] t = refl
read-shift (c ∷ s) t = rw (read-shift s t) (ground arith)

abbrev valued : JsonValue → JsonObject → Reading
valued v o = record { chars = []; value = v; out = o }

read_str :
    (t : Text) (o : JsonObject)
    → ((read (print o)).chars ≡ []) × ((read (print o)).out ≡ o)
    → read (b'S' ∷ (shift t ++ print o)) ≡ valued (str t) o
unfolding read
read_str t o ih = rw (read-shift t (print o), ih.0, ih.1, append-nil t) refl

read_num :
    (n : ℕ) (o : JsonObject)
    → ((read (print o)).chars ≡ []) × ((read (print o)).out ≡ o)
    → read (b'N' ∷ (n + 0x4000) ∷ print o) ≡ valued (num n) o
unfolding read
read_num n o ih = ground (arith, ih.0, ih.1)

read_field :
    (k t : Text) (v : JsonValue) (o : JsonObject)
    → read t ≡ valued v o
    → ((read (b',' ∷ (shift k ++ t))).chars ≡ [])
      × ((read (b',' ∷ (shift k ++ t))).out ≡ (k, v) ∷ o)
unfolding read
read_field k t v o e = rw (read-shift k t, e, append-nil k) (refl, refl)

read-print : (o : JsonObject) → ((read (print o)).chars ≡ []) × ((read (print o)).out ≡ o)
unfolding print
read-print [] = unfold read in (refl, refl)
read-print ((k, str t) ∷ o) = read_field k _ (str t) o (read_str t o (read-print o))
read-print ((k, num n) ∷ o) = read_field k _ (num n) o (read_num n o (read-print o))

abbrev pub parse : Text → Option JsonObject
parse t = some (read t).out

pub parse-print : (o : JsonObject) → parse (print o) ≡ some o
parse-print o = ap some (read-print o).1

abbrev IsLine : Text → Type 0
IsLine = All (λ c. is_line_end c ≡ false)

shift-IsLine : (s t : Text) → IsLine t → IsLine (shift s ++ t)
shift-IsLine [] t h = h
shift-IsLine (c ∷ s) t h = (ground arith, shift-IsLine s t h)

pub print-IsLine : (o : JsonObject) → IsLine (print o)
unfolding print
print-IsLine [] = tt
print-IsLine ((k, str t) ∷ o) =
    (refl, shift-IsLine k _ (refl, shift-IsLine t (print o) (print-IsLine o)))
print-IsLine ((k, num n) ∷ o) = (refl, shift-IsLine k _ (refl, (ground arith, print-IsLine o)))

abbrev pub plain_fromisoformat : Text → Option Datetime
plain_fromisoformat (y ∷ m ∷ d ∷ u ∷ []) =
    some (record { year = y - 48; month = m - 48; day = d - 48; micros = u - 48 })
plain_fromisoformat _ = none

pub plain_iso_back : (d : Datetime) → plain_fromisoformat (plain_iso d) ≡ some d
plain_iso_back d = ground arith

abbrev pub format : ManifestFormat
format = record {
  hashing = hashing;
  dumps = print;
  loads = parse;
  fromisoformat = plain_fromisoformat;
  decode_utf8 = λ b. some b;
  loads-dumps = parse-print;
  dumps_line = print-IsLine;
  fromisoformat-isoformat = plain_iso_back;
  decode_utf8-utf8 = λ t. refl;
}
