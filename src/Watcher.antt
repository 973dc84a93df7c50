-- ===== src/Watcher.antt =====
-- services/gateway/folder_watcher.py: one scan of the inbox and the loop over scans. An ingestor is
-- the parameter `ingest`; `sorted` has put the entries in order.
pub mod Scans
mod Samples
use tactical_gateway.Base.{
  ℕ, zero, suc, Bool, true, false, not, ◌&&◌, Option, none, some, List, [], ◌∷◌, ◌++◌, Text, codes,
  lower, starts_with, ends_with, if◌then◌else◌, ◌==◌, is_some,
}
use tactical_gateway.Base.Dict.{store}

-- An entry of the inbox with what the calls on it answer: its size before and after the pause and at
-- the pickup (`none` is an OSError or a file that is gone), its bytes, whether it can be moved, and
-- whether the text of its error can be written.
pub record Entry : Type 0 where
  pub name : Text
  pub is_dir : Bool
  pub size1 : Option ℕ
  pub size2 : Option ℕ
  pub size3 : Option ℕ
  pub content : Option (List ℕ)
  pub movable : Bool
  pub err_writable : Bool

-- What an ingestor returns, or that it raises.
pub data Outcome : Type 0 where
  ingested : Outcome
  rejected : Option Text → Outcome
  raises : Outcome

-- A file of the folder `.failed`: a moved one, or the text of an error.
pub data FailedFile : Type 0 where
  moved : Entry → FailedFile
  error_text : Text → FailedFile

-- The inbox, and the two folders behind it by the names of their files.
pub record Folder (W : Type 0) : Type 0 where
  pub inbox : List Entry
  pub processed : List (Text × Entry)
  pub failed : List (Text × FailedFile)
  pub world : W

abbrev pub dotted : Text → Text
dotted ext = if starts_with ext (codes ".") then ext else codes "." ++ ext

unfoldable pub register {ℓ} : {H : Type ℓ} → Text → H → List (Text × H) → List (Text × H)
unfolding store starts_with
register extension h handlers = store (dotted (lower extension)) h handlers

unfoldable pub match_handler {ℓ} : {H : Type ℓ} → Text → List (Text × H) → Option H
unfolding ends_with
match_handler filename [] = none
match_handler filename ((ext, h) ∷ hs) =
    if ends_with (lower filename) ext then some h else match_handler filename hs

-- The sizes before and after the pause are equal, and not zero.
unfoldable pub is_stable : Option ℕ → Option ℕ → Bool
is_stable none size2 = false
is_stable (some size1) none = false
is_stable (some size1) (some size2) = not (size1 == 0) && size1 == size2

abbrev pub or_unknown_error : Option Text → Text
or_unknown_error none = codes "unknown error"
or_unknown_error (some []) = codes "unknown error"
or_unknown_error (some (c ∷ t)) = c ∷ t

-- `stamp` is the time of the clock of the world, to the second.
module _ {W H : Type 0} (stamp : W → Text) (ingest : H → List ℕ → Text → W → Outcome × W) where
  abbrev pub destination : W → Entry → Text
  destination w e = stamp w ++ (codes "_" ++ e.name)

  -- The move, which replaces a file of the same name, and then the text of the error beside it.
  unfoldable pub move_failed :
      Text → Entry → Text → List (Text × FailedFile) → List (Text × FailedFile)
  unfolding store
  move_failed name e err failed =
      let there = store name (moved e) failed in
      if e.err_writable then store (name ++ codes ".err") (error_text err) there else there

  -- Where the entry goes; `true` says that the scan goes on, `false` that an exception ends it.
  unfoldable pub settle : Entry → Outcome × W → Folder W → Bool × Folder W
  unfolding store move_failed
  settle e (ingested, w) d = (
    true,
    if e.movable
        then record d { processed = store (destination w e) e d.processed; world = w }
        else record d { inbox = d.inbox ++ (e ∷ []); world = w },
  )
  settle e (rejected err, w) d = (
    true,
    if e.movable
        then record d {
          failed = move_failed (destination w e) e (or_unknown_error err) d.failed;
          world = w;
        }
        else record d { inbox = d.inbox ++ (e ∷ []); world = w },
  )
  settle e (raises, w) d = (false, record d { inbox = d.inbox ++ (e ∷ []); world = w })

  -- A `stat` that raises at the pickup ends the scan.
  unfoldable pub process : Entry → H → Option ℕ → Option (List ℕ) → Folder W → Bool × Folder W
  unfolding settle
  process e h none content d = (false, record d { inbox = d.inbox ++ (e ∷ []) })
  process e h (some size) none d = (true, record d { inbox = d.inbox ++ (e ∷ []) })
  process e h (some size) (some bytes) d = settle e (ingest h bytes e.name d.world) d

  unfoldable pub scan_entry : Entry → Option H → Folder W → Bool × Folder W
  unfolding process
  scan_entry e none d = (true, record d { inbox = d.inbox ++ (e ∷ []) })
  scan_entry e (some h) d =
      if not e.is_dir && is_stable e.size1 e.size2
      then process e h e.size3 e.content d
      else (true, record d { inbox = d.inbox ++ (e ∷ []) })

  -- The entries in their order; the inbox of the folder collects those that stay.
  unfoldable pub scan : List (Text × H) → List Entry → Folder W → Bool × Folder W
  scan handlers [] d = (true, d)
  scan handlers (e ∷ es) d =
      let (more, d') = scan_entry e (match_handler e.name handlers) d in
      let rest = scan handlers es d' in
      if more then rest else (false, record d' { inbox = d'.inbox ++ es })

  unfoldable pub scan_once : List (Text × H) → Folder W → Bool × Folder W
  unfolding scan
  scan_once handlers d = scan handlers d.inbox (record d { inbox = [] })
