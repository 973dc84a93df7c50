-- ===== src/Ingest/Samples.antt =====
-- Ingests of small files with services that count the published objects.
use tactical_gateway.Base.{ℕ, ◌+◌, ◌≡◌, refl, Bool, true, false, List, [], ◌∷◌, ◌++◌, Text, codes}
use tactical_gateway.Ingest.{
  Ingested, captured, Parsed, parsed, Services, kmz_ingest, ovl_ingest, is_zip, after_capture,
}
use tactical_gateway.Ingest.Flow.{
  Honest, ZipLike, XmlLike, Conflicting, kmz_ingest-Honest, ovl_ingest-Honest,
}

abbrev services : Services ℕ Bool
services = record {
  sha256_hex = λ b. codes "aa";
  capture = λ b protocol w. (captured (codes "raw/" ++ protocol), w);
  publish_cto = λ c w. (c, w + 1);
  has_conflict = λ c. c;
}

abbrev to_ctos : List ℕ → Text → Text → Parsed Bool
to_ctos data_ filename key = parsed (true ∷ false ∷ [])

abbrev zip_bytes : List ℕ
zip_bytes = codes "PK34"

abbrev xml_bytes : List ℕ
xml_bytes = codes "  <overlay></overlay>"

abbrev world_of : Ingested × ℕ → ℕ
world_of (r, w) = w

published_two : world_of (kmz_ingest services to_ctos zip_bytes (codes "a.kmz") 0) ≡ 2
unfolding kmz_ingest is_zip after_capture
published_two = refl

kmz_ingest-Honest_example :
    Honest services
      (ZipLike zip_bytes)
      (to_ctos zip_bytes (codes "a.kmz"))
      (λ _ n. n ≡ 0)
      (services.capture zip_bytes (codes "kmz") 0)
      (kmz_ingest services to_ctos zip_bytes (codes "a.kmz") 0)
kmz_ingest-Honest_example = kmz_ingest-Honest services to_ctos zip_bytes (codes "a.kmz") 0

ovl_ingest-Honest_example :
    Honest services
      (XmlLike xml_bytes)
      (to_ctos xml_bytes (codes "a.ovl"))
      (Conflicting services)
      (services.capture xml_bytes (codes "ovl") 0)
      (ovl_ingest services to_ctos xml_bytes (codes "a.ovl") 0)
ovl_ingest-Honest_example = ovl_ingest-Honest services to_ctos xml_bytes (codes "a.ovl") 0
