-- ===== src/Opstore.antt =====
-- services/opstore/writer.py: the write of a batch of objects, with the supersession of an earlier
-- ingest of the same KMZ. The tables are lists of rows, and a time is a number.
pub mod Retire
pub mod Supersession
pub mod Buffer
pub mod Columns
mod Samples
use tactical_gateway.Base.Dict.{lookup}
use tactical_gateway.Base.{
  ℕ, zero, suc, ◌+◌, Bool, true, false, not, ◌&&◌, ◌||◌, Option, none, some, List, [], ◌∷◌, ◌++◌,
  Text, codes, text_eq, is_some, ◌>>=ₒ◌, if◌then◌else◌, ltb,
}

abbrev pub Attributes : Type 0
Attributes = List (Text × Text)

-- The fields of a CTO that the write path reads one by one; `rest` holds the others.
pub record Cto (B : Type 0) : Type 0 where
  pub uid : Text
  pub source_system : Text
  pub received_at : ℕ
  pub valid_to : Option ℕ
  pub attributes : Attributes
  pub rest : B

-- A row of the table `cto`: the columns that supersession reads, and the other ones.
pub record Row (C : Type 0) : Type 0 where
  pub uid : Text
  pub valid_to : Option ℕ
  pub parent_kmz_filename : Option Text
  pub parent_kmz_source : Option Text
  pub columns : C

-- A row of `audit_log` with what varies between its entries.
pub record AuditEntry : Type 0 where
  pub at : ℕ
  pub target : Text
  pub parent_kmz_source : Text
  pub superseded_count : ℕ
  pub new_kmz_uri : Option Text

pub record Db (C : Type 0) : Type 0 where
  pub cto_table : List (Row C)
  pub audit_log : List AuditEntry

abbrev pub column_is : Text → Option Text → Bool
column_is v none = false
column_is v (some w) = text_eq w v

unfoldable pub is_prior : {C : Type 0} → Text → Text → Row C → Bool
unfolding text_eq
is_prior filename source r =
    column_is filename r.parent_kmz_filename
    && column_is source r.parent_kmz_source
    && not (is_some r.valid_to)

-- `UPDATE cto SET valid_to = … WHERE …`, with the count of the rows.
unfoldable pub retire : {C : Type 0} → Text → Text → ℕ → List (Row C) → List (Row C)
unfolding is_prior
retire filename source at [] = []
retire filename source at (r ∷ rs) =
    (if is_prior filename source r then record r { valid_to = some at } else r)
    ∷ retire filename source at rs

unfoldable pub count_prior : {C : Type 0} → Text → Text → List (Row C) → ℕ
unfolding is_prior
count_prior filename source [] = 0
count_prior filename source (r ∷ rs) =
    (if is_prior filename source r then 1 else 0) + count_prior filename source rs

unfoldable pub supersede_prior : {C : Type 0} → Text → Text → ℕ → Option Text → Db C → ℕ × Db C
unfolding retire count_prior
supersede_prior filename source at uri db =
    let count = count_prior filename source db.cto_table in
    let entry : AuditEntry = record {
      at = at;
      target = filename;
      parent_kmz_source = source;
      superseded_count = count;
      new_kmz_uri = uri;
    } in
    (
      count,
      record {
        cto_table = retire filename source at db.cto_table;
        audit_log = if ltb 0 count then db.audit_log ++ (entry ∷ []) else db.audit_log;
      },
    )

unfoldable pub has_uid : {C : Type 0} → Text → List (Row C) → Bool
unfolding text_eq
has_uid u [] = false
has_uid u (r ∷ rs) = text_eq r.uid u || has_uid u rs

abbrev pub is_truthy : Option Text → Bool
is_truthy none = false
is_truthy (some []) = false
is_truthy (some (_ ∷ _)) = true

abbrev pub first_of {ℓ} : {A : Type ℓ} → A → List A → A
first_of a [] = a
first_of a (b ∷ _) = b

-- `params` is the rest of `_cto_insert_sql_and_params`, the columns of Opstore.Columns; `none` is a
-- raise, of the statement or of what builds it.
module _ {B C : Type 0} (params : Cto B → Option C) where
  abbrev pub row_of : Cto B → C → Row C
  row_of cto columns = record {
    uid = cto.uid;
    valid_to = cto.valid_to;
    parent_kmz_filename = lookup (codes "parent_kmz_filename") cto.attributes;
    parent_kmz_source = lookup (codes "parent_kmz_source") cto.attributes;
    columns = columns;
  }

  unfoldable pub insert_row : Cto B → Option (Row C)
  unfolding lookup
  insert_row cto = params cto >>=ₒ λ columns. some (row_of cto columns)

  -- One `INSERT … ON CONFLICT (uid) DO NOTHING`.
  unfoldable pub insert_one : Cto B → ℕ × List (Row C) → Option (ℕ × List (Row C))
  unfolding has_uid
  insert_one cto (n, rows) = insert_row cto >>=ₒ λ row.
      some (if has_uid cto.uid rows then (n, rows) else (n + 1, rows ++ (row ∷ [])))

  unfoldable pub insert_ctos : List (Cto B) → ℕ × List (Row C) → Option (ℕ × List (Row C))
  insert_ctos [] t = some t
  insert_ctos (c ∷ cs) t = insert_one c t >>=ₒ insert_ctos cs

  unfoldable pub insert_batch : List (Cto B) → ℕ → Db C → Option ((ℕ × ℕ) × Db C)
  unfolding insert_ctos
  insert_batch ctos superseded db = insert_ctos ctos (0, db.cto_table) >>=ₒ λ (inserted, rows).
      some ((inserted, superseded), record db { cto_table = rows })

  abbrev pub supersede_for : Cto B → Option Text → Option Text → Db C → ℕ × Db C
  supersede_for sample (some (f ∷ filename)) (some (s ∷ source)) db =
      supersede_prior (f ∷ filename) (s ∷ source) sample.received_at
        (lookup (codes "parent_kmz_uri") sample.attributes) db
  supersede_for sample _ _ db = (0, db)

  -- `none` is a raise, on which the transaction of the caller is rolled back.
  unfoldable pub write_ctos_with_supersession : List (Cto B) → Db C → Option ((ℕ × ℕ) × Db C)
  unfolding lookup
  write_ctos_with_supersession [] db = some ((0, 0), db)
  write_ctos_with_supersession (sample ∷ ctos) db =
      let (superseded, db') =
        supersede_for sample (lookup (codes "parent_kmz_filename") sample.attributes)
          (lookup (codes "parent_kmz_source") sample.attributes) db in
      insert_batch (sample ∷ ctos) superseded db'
