-- ===== src/Watcher/Scans.antt =====
-- What an exception of an ingestor does to the scans.
use tactical_gateway.Base.{Bool, true, not, ◌&&◌, Option, none, some}
use tactical_gateway.Watcher.{Entry, is_stable}

-- Whether the scan leaves an entry with this handler alone.
abbrev pub is_passed : {H : Type 0} → Option H → Entry → Bool
is_passed none e = true
is_passed (some h) e = not (not e.is_dir && is_stable e.size1 e.size2)
