-- ===== src/Ingest.antt =====
-- `KmzIngestor.ingest` of services/gateway/kmz_ingest.py and `OvlIngestor.ingest` of
-- services/gateway/ovl_ingest.py: check, capture, parse and publish one file. The capture writer, the
-- parsers and the publisher are parameters over the world `W`; `C` is the type of a parsed object.
pub mod Flow
mod Samples
use tactical_gateway.Base.{
  ℕ, ◌+◌, Bool, true, false, not, ◌&&◌, ◌||◌, Option, none, some, List, [], ◌∷◌, ◌++◌, Text, codes,
  length, take, ltb, drop_while, leb, ◌==◌, ◌||◌, starts_with, if◌then◌else◌,
}

-- The summary of an attempt; `count` is `features_extracted` or `objects_ingested`.
pub record IngestResult : Type 0 where
  pub ok : Bool
  pub filename : Text
  pub sha256 : Option Text
  pub object_key : Option Text
  pub count : ℕ
  pub conflict_count : ℕ
  pub error : Option Text

-- An ingest returns, or an exception leaves it.
pub data Ingested : Type 0 where
  returned : IngestResult → Ingested
  escaped : Ingested

pub data Captured : Type 0 where
  captured : Text → Captured
  capture_raised : Text → Captured

pub data Parsed (C : Type 0) : Type 0 where
  parsed : List C → Parsed C
  parse_error : Text → Parsed C
  other_error : Parsed C

pub record Services (W C : Type 0) : Type 0 where
  pub sha256_hex : List ℕ → Text
  pub capture : List ℕ → Text → W → Captured × W
  pub publish_cto : C → W → Bool × W
  pub has_conflict : C → Bool

abbrev pub failure : Text → Option Text → Option Text → Text → IngestResult
failure filename sha key error = record {
  ok = false;
  filename = filename;
  sha256 = sha;
  object_key = key;
  count = 0;
  conflict_count = 0;
  error = some error;
}

-- `len(data) < 4 or data[:2] != b"PK"`
unfoldable pub is_zip : List ℕ → Bool
unfolding starts_with
is_zip data_ = not (ltb (length data_) 4) && starts_with data_ (codes "PK")

-- White space of `bytes.lstrip`.
abbrev pub is_blank : ℕ → Bool
is_blank c = (leb 9 c && leb c 13) || c == 32

-- `len(data) < 16 or not data[:64].lstrip().startswith(b"<")`
unfoldable pub is_xml : List ℕ → Bool
unfolding starts_with drop_while
is_xml data_ =
    not (ltb (length data_) 16) && starts_with (drop_while is_blank (take 64 data_)) (codes "<")

module _ {W C : Type 0} (services : Services W C) where
  -- Each object is published in turn; one that raises is passed over.
  unfoldable pub publish_all : List C → W → W
  publish_all [] w = w
  publish_all (c ∷ cs) w = let (sent, w') = services.publish_cto c w in publish_all cs w'

  unfoldable pub count_conflicts : List C → ℕ
  count_conflicts [] = 0
  count_conflicts (c ∷ cs) = (if services.has_conflict c then 1 else 0) + count_conflicts cs

  unfoldable pub after_parse : (List C → ℕ) → Text → Text → Text → W → Parsed C → Ingested × W
  unfolding publish_all
  after_parse conflicts filename sha key w (parsed ctos) = (
    returned (record {
      ok = true;
      filename = filename;
      sha256 = some sha;
      object_key = some key;
      count = length ctos;
      conflict_count = conflicts ctos;
      error = none;
    }),
    publish_all ctos w,
  )
  after_parse conflicts filename sha key w (parse_error e) =
      (returned (failure filename (some sha) (some key) (codes "parse failed: " ++ e)), w)
  after_parse conflicts filename sha key w other_error = (escaped, w)

  unfoldable pub after_capture :
      (Text → Parsed C) → (List C → ℕ) → Text → Text → Captured × W → Ingested × W
  unfolding after_parse
  after_capture parse conflicts filename sha (captured key, w) =
      after_parse conflicts filename sha key w (parse key)
  after_capture parse conflicts filename sha (capture_raised e, w) =
      (returned (failure filename (some sha) none (codes "capture failed: " ++ e)), w)

  -- `kmz_to_ctos` on the bytes, by the key of the raw pointer.
  unfoldable pub kmz_ingest : (List ℕ → Text → Text → Parsed C) → List ℕ → Text → W → Ingested × W
  kmz_ingest kmz_to_ctos data_ filename w =
      if is_zip data_
      then after_capture (kmz_to_ctos data_ filename) (λ _. 0) filename (services.sha256_hex data_)
          (services.capture data_ (codes "kmz") w)
      else (
        returned (
            failure filename none none (codes "not a zip file (KMZ must begin with PK signature)")),
        w,
      )

  unfoldable pub ovl_ingest : (List ℕ → Text → Text → Parsed C) → List ℕ → Text → W → Ingested × W
  ovl_ingest ovl_to_ctos data_ filename w =
      if is_xml data_
      then after_capture (ovl_to_ctos data_ filename) count_conflicts filename
          (services.sha256_hex data_) (services.capture data_ (codes "ovl") w)
      else (
        returned (
            failure filename none none
              (codes "not an XML OVL (expected '<' at start of document)")),
        w,
      )
