-- ===== src/Opstore/Samples.antt =====
-- Runs of the operational store of services/opstore on two ingests of one KMZ.
use tactical_gateway.Base.{
  ℕ, ◌+◌, ◌≤◌, ◌⊎◌, ◌==◌, if◌then◌else◌, ◌≡◌, refl, true, Option, none, some, List, [], ◌∷◌, Text,
  codes, All,
}
use tactical_gateway.Base.Dict.{lookup}
use tactical_gateway.Opstore.{
  Cto, Row, Db, write_ctos_with_supersession, insert_batch, supersede_prior, insert_ctos,
  insert_one, insert_row,
}
use tactical_gateway.Opstore.Retire.{NotCurrent, Retired, Named}
use tactical_gateway.Opstore.Supersession.{IsFrom, write_supersedes}
use tactical_gateway.Opstore.Buffer.{State, new_opstore, on_message, flush_all}
use tactical_gateway.Opstore.Buffer.Totals.{total, in_flight}
use tactical_gateway.Opstore.Buffer.Accounts.{
  Reachable, IsAccounted, Reachable-IsAccounted, flush_all_drains,
}

abbrev params : Cto ℕ → Option ℕ
params cto = if cto.rest == 9 then none else some cto.rest

abbrev placemark : Text → ℕ → Cto ℕ
placemark uid at = record {
  uid = uid;
  source_system = codes "kmz";
  received_at = at;
  valid_to = none;
  attributes =
      (codes "parent_kmz_filename", codes "plan.kmz")
      ∷ (codes "parent_kmz_source", codes "inbox")
      ∷ [];
  rest = 0;
}

abbrev empty_db : Db ℕ
empty_db = record { cto_table = []; audit_log = [] }

abbrev written : Option ((ℕ × ℕ) × Db ℕ) → Db ℕ
written none = empty_db
written (some (_, db)) = db

abbrev first_half : Db ℕ
first_half = written (
    write_ctos_with_supersession params (placemark (codes "a") 5 ∷ placemark (codes "b") 5 ∷ [])
      empty_db)

abbrev valid_tos : List (Row ℕ) → List (Option ℕ)
valid_tos [] = []
valid_tos (r ∷ rs) = r.valid_to ∷ valid_tos rs

-- The second half of an ingest, in a flush of its own, retires the first half.
second_half :
    valid_tos
      (written
        (write_ctos_with_supersession params (placemark (codes "c") 5 ∷ []) first_half)).cto_table
    ≡ some 5 ∷ some 5 ∷ none ∷ []
unfolding write_ctos_with_supersession insert_batch supersede_prior insert_ctos insert_one
    insert_row
second_half = refl

-- An object whose geometry cannot be written fails the whole batch.
unwritable :
    write_ctos_with_supersession params
      (placemark (codes "c") 5 ∷ record (placemark (codes "d") 5) { rest = 9 } ∷ [])
      first_half
    ≡ none
unfolding write_ctos_with_supersession insert_batch supersede_prior insert_ctos insert_one
    insert_row
unwritable = refl

write_supersedes_example :
    (counts : ℕ × ℕ) × (db' : Db ℕ) × (write_ctos_with_supersession params
        (placemark (codes "c") 5 ∷ [])
        first_half
      ≡ some (counts, db'))
    × All
        (λ r.
          IsFrom params r (placemark (codes "c") 5 ∷ [])
          ⊎ NotCurrent (codes "plan.kmz") (codes "inbox") r)
        db'.cto_table
    × All (λ r. Retired (codes "plan.kmz") (codes "inbox") 5 r db'.cto_table) first_half.cto_table
    × All (λ c. Named c.uid db'.cto_table) (placemark (codes "c") 5 ∷ [])
unfolding lookup
write_supersedes_example =
    write_supersedes params (placemark (codes "c") 5) [] first_half b'p' b'i' (codes "lan.kmz")
      (codes "nbox") refl refl (refl, tt)

abbrev received_two : State ℕ ℕ
received_two =
    on_message params 9 none
      (on_message params 7 (some (placemark (codes "a") 5)) (new_opstore params empty_db))

received_two-Reachable : Reachable params [] received_two
received_two-Reachable =
    Reachable.received [] _ 9 none
      (Reachable.received [] _ 7 (some (placemark (codes "a") 5)) (Reachable.started empty_db))

-- One object of the same KMZ arrives during the write.
abbrev arrivals : Text → List (ℕ × Option (Cto ℕ))
arrivals key = (11, some (placemark (codes "z") 8)) ∷ []

abbrev drained : State ℕ ℕ
drained = flush_all params (λ k. true) arrivals received_two

flush_all_drains_example :
    (received_two.messages_received ≤ drained.messages_written + drained.messages_failed)
    × (received_two.messages_received + total drained.buffer ≤ drained.messages_received)
    × (drained.messages_received
        ≡ drained.messages_written + drained.messages_failed + total drained.buffer)
flush_all_drains_example =
    flush_all_drains params (λ k. true) arrivals received_two received_two-Reachable

Reachable-IsAccounted_example : IsAccounted params (in_flight {A = Cto ℕ} []) received_two
Reachable-IsAccounted_example = Reachable-IsAccounted params [] received_two received_two-Reachable
