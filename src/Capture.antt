-- ===== src/Capture.antt =====
-- `CaptureWriter` of services/gateway/capture.py, with `ChainEntry.to_jsonl` and `from_jsonl` of
-- libs/cto_schema/src/cto_schema/hashchain.py. The bucket is a function from keys to bytes, and a
-- list of faults says which of the coming calls of MinIO raise.
pub mod Lines
pub mod Keys
pub mod Steps
pub mod Chain
pub mod Faults
mod Samples
mod Format
use tactical_gateway.Base.{
  ℕ, ◌+◌, ◌/◌, ◌%◌, ◌≡◌, ◌≢◌, Bool, true, false, ◌&&◌, ◌||◌, Option, none, some, List, [], ◌∷◌,
  ◌++◌, Text, codes, text_eq, length, take, last_or, concat, map, if◌then◌else◌, ◌==◌, leb, All,
  ◌>>=ₒ◌,
}
use tactical_gateway.HashChain.{
  Datetime, Hashing, ChainEntry, newline, genesis_prev_hash, make_entry,
}

-- A JSON object with the values that the manifest has.
pub data JsonValue : Type 0 where
  str : Text → JsonValue
  num : ℕ → JsonValue

abbrev pub JsonObject : Type 0
JsonObject = List (Text × JsonValue)

-- The characters at which `str.splitlines` ends a line.
abbrev pub is_line_end : ℕ → Bool
is_line_end c =
    (leb 10 c && leb c 13)
    || (leb 28 c && leb c 30)
    || (c == 0x85)
    || (c == 0x2028)
    || (c == 0x2029)

-- What the manifest uses of `json`, `datetime` and UTF-8: parsing undoes printing, and
-- `json.dumps` escapes every line end.
pub record ManifestFormat : Type 0 where
  pub hashing : Hashing
  pub dumps : JsonObject → Text
  pub loads : Text → Option JsonObject
  pub fromisoformat : Text → Option Datetime
  pub decode_utf8 : List ℕ → Option Text
  pub loads-dumps : (o : JsonObject) → loads (dumps o) ≡ some o
  pub dumps_line : (o : JsonObject) → All (λ c. is_line_end c ≡ false) (dumps o)
  pub fromisoformat-isoformat : (d : Datetime) → fromisoformat (hashing.isoformat d) ≡ some d
  pub decode_utf8-utf8 : (t : Text) → decode_utf8 (hashing.utf8 t) ≡ some t

pub record RawPointer : Type 0 where
  pub sha256 : Text
  pub object_key : Text
  pub size_bytes : ℕ
  pub captured_at : Datetime

-- The writer's fields, and the bucket with the faults to come.
pub record State : Type 0 where
  pub chain_day : Option Text
  pub chain_tip : Text
  pub manifest_lines : List Text
  pub objects : Text → Option (List ℕ)
  pub faults : List Bool

-- What a call may raise: an `S3Error`, or an exception out of a manifest that does not parse.
pub data CaptureError : Type 0 where
  s3_error manifest_error : CaptureError

pub data Result (A : Type 0) : Type 0 where
  ok : A → Result A
  err : CaptureError → Result A

-- A call on the writer. What it wrote before it raised stays written.
abbrev pub Action : Type 0 → Type 0
Action A = State → Result A × State

module _ {A : Type 0} where
  abbrev pub pure : A → Action A
  pure a s = (ok a, s)

  abbrev pub raise : CaptureError → Action A
  raise e s = (err e, s)

  abbrev pub gets : (State → A) → Action A
  gets f s = (ok (f s), s)

  abbrev pub or_raise : Option A → Action A
  or_raise none = raise manifest_error
  or_raise (some a) = pure a

abbrev pub modify : (State → State) → Action (Unit {0})
modify f s = (ok tt, f s)

abbrev pub then_do : {A B : Type 0} → (A → Action B) → Result A × State → Result B × State
then_do k (ok a, s) = k a s
then_do k (err e, s) = (err e, s)

infixl 5 ◌>>=◌ ◌>>◌
abbrev pub ◌>>=◌ : {A B : Type 0} → Action A → (A → Action B) → Action B
◌>>=◌ m k s = then_do k (m s)

abbrev pub ◌>>◌ : {A B : Type 0} → Action A → Action B → Action B
m >> k = m >>= λ _. k

-- A call of MinIO: it raises if the next fault says so, and changes nothing then.
abbrev pub with_fault : {A : Type 0} → List Bool → Action A → Action A
with_fault [] m s = m s
with_fault (true ∷ fs) m s = raise s3_error (record s { faults = fs })
with_fault (false ∷ fs) m s = m (record s { faults = fs })

abbrev pub minio_call : {A : Type 0} → Action A → Action A
minio_call m s = with_fault s.faults m s

-- `{n:02d}` and `{n:04d}`, for the numbers that a date has.
abbrev pub two_digits : ℕ → Text
two_digits n = (48 + n / 10 % 10) ∷ (48 + n % 10) ∷ []

abbrev pub four_digits : ℕ → Text
four_digits n = (48 + n / 1000 % 10) ∷ (48 + n / 100 % 10) ∷ two_digits n

-- `raw/yyyy/mm/dd/`, where both keys begin.
abbrev pub day_folder : Datetime → Text
day_folder t =
    codes "raw/"
    ++ (four_digits t.year
        ++ (b'/' ∷ (two_digits t.month ++ (b'/' ∷ (two_digits t.day ++ (b'/' ∷ []))))))

unfoldable pub object_key_for : Datetime → Text → Text → Text
object_key_for t protocol sha256 =
    day_folder t ++ (protocol ++ (b'/' ∷ (take 2 sha256 ++ (b'/' ∷ sha256))))

unfoldable pub manifest_key_for : Datetime → Text
manifest_key_for t = day_folder t ++ codes "manifest.jsonl"

unfoldable pub day_key_for : Datetime → Text
day_key_for t = four_digits t.year ++ (b'-' ∷ (two_digits t.month ++ (b'-' ∷ two_digits t.day)))

-- `str.splitlines`; the pair `\r\n` ends one line.
unfoldable pub add_char : ℕ → List Text → List Text
add_char c [] = (c ∷ []) ∷ []
add_char c (l ∷ ls) = (c ∷ l) ∷ ls

abbrev pub starts_lf : Text → Bool
starts_lf [] = false
starts_lf (c ∷ _) = c == 10

unfoldable pub line_step : ℕ → Text → List Text → List Text
unfolding add_char
line_step c t ls =
    if (c == 13) && starts_lf t then ls else if is_line_end c then [] ∷ ls else add_char c ls

unfoldable pub splitlines : Text → List Text
splitlines [] = []
splitlines (c ∷ t) = line_step c t (splitlines t)

-- `"\n".join(lines) + "\n"`
unfoldable pub join_lines : List Text → Text
join_lines [] = newline ∷ []
join_lines (l ∷ []) = l ++ (newline ∷ [])
join_lines (l ∷ k ∷ ls) = l ++ (newline ∷ join_lines (k ∷ ls))

-- `d[name]`; what the manifest has there of another JSON type counts as a raise.
unfoldable pub get_str : Text → JsonObject → Option Text
get_str k [] = none
get_str k ((j, num n) ∷ o) = if text_eq j k then none else get_str k o
get_str k ((j, str t) ∷ o) = if text_eq j k then some t else get_str k o

unfoldable pub get_num : Text → JsonObject → Option ℕ
get_num k [] = none
get_num k ((j, num n) ∷ o) = if text_eq j k then some n else get_num k o
get_num k ((j, str t) ∷ o) = if text_eq j k then none else get_num k o

abbrev pub is_day : Option Text → Text → Bool
is_day none k = false
is_day (some d) k = text_eq k d

abbrev pub put : Text → List ℕ → (Text → Option (List ℕ)) → Text → Option (List ℕ)
put k b objects j = if text_eq j k then some b else objects j

-- `_client` and the fields as `__init__` leaves them.
abbrev pub new_writer : (Text → Option (List ℕ)) → List Bool → State
new_writer objects faults = record {
  chain_day = none;
  chain_tip = genesis_prev_hash;
  manifest_lines = [];
  objects = objects;
  faults = faults;
}

module _ (f : ManifestFormat) where
  unfoldable pub entry_object : ChainEntry → JsonObject
  entry_object e =
      (codes "sha256", str e.sha256)
      ∷ (codes "prev_hash", str e.prev_hash)
      ∷ (codes "entry_hash", str e.entry_hash)
      ∷ (codes "captured_at", str (f.hashing.isoformat e.captured_at))
      ∷ (codes "object_key", str e.object_key)
      ∷ (codes "size_bytes", num e.size_bytes)
      ∷ (codes "protocol", str e.protocol)
      ∷ []

  unfoldable pub to_jsonl : ChainEntry → Text
  unfolding entry_object
  to_jsonl e = f.dumps (entry_object e)

  unfoldable pub from_object : JsonObject → Option ChainEntry
  unfolding get_str get_num
  from_object d = get_str (codes "sha256") d >>=ₒ λ sha. get_str (codes "prev_hash") d >>=ₒ λ prev.
      get_str (codes "entry_hash") d >>=ₒ λ hash. get_str (codes "captured_at") d >>=ₒ λ iso.
      f.fromisoformat iso >>=ₒ λ captured. get_str (codes "object_key") d >>=ₒ λ key.
      get_num (codes "size_bytes") d >>=ₒ λ size. get_str (codes "protocol") d >>=ₒ λ proto.
      some (record {
        sha256 = sha;
        prev_hash = prev;
        entry_hash = hash;
        captured_at = captured;
        object_key = key;
        size_bytes = size;
        protocol = proto;
      })

  unfoldable pub from_jsonl : Text → Option ChainEntry
  unfolding from_object
  from_jsonl line = f.loads line >>=ₒ from_object

  unfoldable pub read_object_or_none : Text → Action (Option (List ℕ))
  read_object_or_none key = minio_call (gets (λ s. s.objects key))

  unfoldable pub write_object : Text → List ℕ → Action (Unit {0})
  write_object key content =
      minio_call (modify (λ s. record s { objects = put key content s.objects }))

  unfoldable pub append_manifest_line : Datetime → Text → Action (Unit {0})
  unfolding write_object
  append_manifest_line captured_at line = do
    modify (λ s. record s { manifest_lines = s.manifest_lines ++ (line ∷ []) })
    lines ← gets (λ s. s.manifest_lines)
    write_object (manifest_key_for captured_at) (f.hashing.utf8 (join_lines lines))

  unfoldable pub resume_tip : List Text → Action (Unit {0})
  resume_tip [] = modify (λ s. record s { chain_tip = genesis_prev_hash })
  resume_tip (l ∷ ls) = do
    last ← or_raise (from_jsonl (last_or l ls))
    modify (λ s. record s { chain_tip = last.entry_hash })

  unfoldable pub start_chain : Option (List ℕ) → Action (Unit {0})
  unfolding resume_tip
  start_chain none = modify (λ s. record s { chain_tip = genesis_prev_hash; manifest_lines = [] })
  start_chain (some existing) = do
    text ← or_raise (f.decode_utf8 existing)
    modify (λ s. record s { manifest_lines = splitlines text })
    resume_tip (splitlines text)

  unfoldable pub load_chain : Datetime → Action (Unit {0})
  unfolding read_object_or_none start_chain
  load_chain captured_at = do
    existing ← read_object_or_none (manifest_key_for captured_at)
    start_chain existing
    modify (λ s. record s { chain_day = some (day_key_for captured_at) })

  unfoldable pub roll_chain_if_needed : Datetime → Action (Unit {0})
  unfolding load_chain
  roll_chain_if_needed captured_at s =
      if is_day s.chain_day (day_key_for captured_at) then (ok tt, s) else load_chain captured_at s

  -- The entry under its real key.
  unfoldable pub chain_entry : Text → List ℕ → Text → Datetime → ChainEntry
  chain_entry tip raw_bytes protocol captured_at =
      let entry = make_entry f.hashing tip raw_bytes captured_at (codes "PLACEHOLDER") protocol in
      record entry {
        object_key = object_key_for captured_at protocol entry.sha256;
        protocol = protocol;
      }

  -- `capture` behind the roll.
  unfoldable pub record_entry :
      List ℕ → Text → Datetime → ChainEntry → Action (RawPointer × ChainEntry)
  unfolding write_object append_manifest_line
  record_entry raw_bytes protocol captured_at entry = do
    write_object entry.object_key raw_bytes
    append_manifest_line captured_at (to_jsonl entry)
    modify (λ s. record s { chain_tip = entry.entry_hash })
    pure (
      record {
        sha256 = entry.sha256;
        object_key = entry.object_key;
        size_bytes = entry.size_bytes;
        captured_at = captured_at;
      },
      entry,
    )

  unfoldable pub capture : List ℕ → Text → Datetime → Action (RawPointer × ChainEntry)
  capture raw_bytes protocol captured_at = do
    roll_chain_if_needed captured_at
    tip ← gets (λ s. s.chain_tip)
    record_entry raw_bytes protocol captured_at (chain_entry tip raw_bytes protocol captured_at)
