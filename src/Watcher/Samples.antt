-- ===== src/Watcher/Samples.antt =====
-- Scans of a small inbox with an ingestor that raises on an empty file body.
use tactical_gateway.Base.{
  lower_char, ℕ, ◌+◌, ◌≡◌, refl, true, false, some, List, [], ◌∷◌, Text, codes,
}
use tactical_gateway.Watcher.{
  Entry, Outcome, ingested, raises, Folder, is_stable, match_handler, register, scan_once,
  scan_entry, process, settle,
}

abbrev ingest : Unit {0} → List ℕ → Text → ℕ → Outcome × ℕ
ingest h [] name w = (raises, w)
ingest h (b ∷ _) name w = (ingested, w + 1)

abbrev handlers : List (Text × Unit {0})
handlers = (codes ".kmz", tt) ∷ []

registered : register (codes "KMZ") tt [] ≡ handlers
unfolding register lower_char
registered = refl

abbrev entry : Text → List ℕ → Entry
entry name content = record {
  name = name;
  is_dir = false;
  size1 = some 3;
  size2 = some 3;
  size3 = some 3;
  content = some content;
  movable = true;
  err_writable = true;
}

abbrev inbox : List Entry
inbox = entry (codes "a.txt") [] ∷ entry (codes "b.kmz") [] ∷ entry (codes "c.KMZ") (7 ∷ []) ∷ []

abbrev folder : Folder ℕ
folder = record { inbox = inbox; processed = []; failed = []; world = 0 }

abbrev stamp : ℕ → Text
stamp w = codes "T"

-- A file of the same name in the same second replaces the one before it.
replaced :
    (scan_once stamp ingest handlers (record folder {
      inbox = entry (codes "c.KMZ") (7 ∷ []) ∷ [];
      processed = (codes "T_c.KMZ", entry (codes "c.KMZ") (8 ∷ [])) ∷ [];
    })).1.processed
    ≡ (codes "T_c.KMZ", entry (codes "c.KMZ") (7 ∷ [])) ∷ []
unfolding scan_once scan_entry process settle match_handler lower_char is_stable
replaced = refl
