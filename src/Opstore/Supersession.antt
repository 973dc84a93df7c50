-- ===== src/Opstore/Supersession.antt =====
-- What the write of a batch leaves of an earlier ingest of the same KMZ.
use tactical_gateway.Base.{
  ℕ, ◌+◌, ◌≡◌, refl, ◌⊎◌, inl, inr, Bool, true, false, Option, none, some, is_some, List, [], ◌∷◌,
  ◌++◌, Text, codes, arith, All, if◌then◌else◌,
}
use tactical_gateway.Base.Dict.{lookup}
use tactical_gateway.Opstore.{
  Cto, Row, Db, row_of, is_prior, retire, supersede_prior, has_uid, insert_row, insert_one,
  insert_ctos, insert_batch, write_ctos_with_supersession,
}
use tactical_gateway.Opstore.Retire.{
  Retired, retired_at, Named, has_uid-Named, Has-last, All-append, retire_clears, NotCurrent,
  is_prior-NotCurrent, Has, Has-append, All-of, retire_keeps,
}

module _ {B C : Type 0} (params : Cto B → Option C) where
  -- The row is that of an object of the batch.
  abbrev pub IsFrom : Row C → List (Cto B) → Type 0
  IsFrom r [] = ⊥
  IsFrom r (c ∷ cs) = (insert_row params c ≡ some r) ⊎ IsFrom r cs

  -- The rows of the first table are in the second.
  abbrev Keeps : List (Row C) → List (Row C) → Type 0
  Keeps xs ys = (r : Row C) → Has r xs → Has r ys

  insert_one-All :
      (P : Row C → Type 0) (c : Cto B) (r : Row C) (t : ℕ × List (Row C))
      → insert_row params c ≡ some r
      → P r
      → r.uid ≡ c.uid
      → All P t.1
      → (t' : ℕ × List (Row C)) × (insert_one params c t ≡ some t')
        × All P t'.1
        × Keeps t.1 t'.1
        × Named c.uid t'.1
  unfolding insert_one
  insert_one-All P c r (n, rows) e p u old = (
    if◌then◌else◌ {A = ℕ × List (Row C)} (has_uid c.uid rows) (n, rows) (n + 1, rows ++ (r ∷ [])),
    rw e refl,
    chosen (has_uid c.uid rows),
    kept (has_uid c.uid rows),
    named (has_uid c.uid rows) refl,
  )
    where
      chosen :
          (b : Bool)
          → All P (if◌then◌else◌ {A = ℕ × List (Row C)} b (n, rows) (n + 1, rows ++ (r ∷ []))).1
      chosen true = old
      chosen false = All-append P rows r old p

      kept :
          (b : Bool)
          → Keeps rows
              (if◌then◌else◌ {A = ℕ × List (Row C)} b (n, rows) (n + 1, rows ++ (r ∷ []))).1
      kept true x h = h
      kept false x h = Has-append x rows (r ∷ []) h

      named :
          (b : Bool)
          → has_uid c.uid rows ≡ b
          → Named c.uid
              (if◌then◌else◌ {A = ℕ × List (Row C)} b (n, rows) (n + 1, rows ++ (r ∷ []))).1
      named true there = has_uid-Named c.uid rows there
      named false there = (r, Has-last r rows, u)

  insert_ctos-All :
      (P : Row C → Type 0) (cs : List (Cto B)) (t : ℕ × List (Row C))
      → All (λ c. (r : Row C) × (insert_row params c ≡ some r) × P r × (r.uid ≡ c.uid)) cs
      → All P t.1
      → (t' : ℕ × List (Row C)) × (insert_ctos params cs t ≡ some t')
        × All P t'.1
        × Keeps t.1 t'.1
        × All (λ c. Named c.uid t'.1) cs
  unfolding insert_ctos
  insert_ctos-All P [] t new old = (t, refl, old, λ x h. h, tt)
  insert_ctos-All P (c ∷ cs) t ((r, e, p, u), new) old =
      let (t1, e1, a1, k1, (x, there, same)) = insert_one-All P c r t e p u old in
      let (t2, e2, a2, k2, names) = insert_ctos-All P cs t1 new a1 in
      (t2, rw e1 e2, a2, λ y h. k2 y (k1 y h), ((x, k2 x there, same), names))

  insert_batch-All :
      (P : Row C → Type 0) (cs : List (Cto B)) (n : ℕ) (db : Db C)
      → All (λ c. (r : Row C) × (insert_row params c ≡ some r) × P r × (r.uid ≡ c.uid)) cs
      → All P db.cto_table
      → (counts : ℕ × ℕ) × (db' : Db C) × (insert_batch params cs n db ≡ some (counts, db'))
        × All P db'.cto_table
        × Keeps db.cto_table db'.cto_table
        × All (λ c. Named c.uid db'.cto_table) cs
  unfolding insert_batch
  insert_batch-All P cs n db new old =
      let ((m, rows), e, a, k, names) = insert_ctos-All P cs (0, db.cto_table) new old in
      ((m, n), record db { cto_table = rows }, rw e refl, a, k, names)

  All-from :
      (cs : List (Cto B)) (P : Row C → Type 0)
      → All (λ c. is_some (params c) ≡ true) cs
      → ((r : Row C) → IsFrom r cs → P r)
      → All (λ c. (r : Row C) × (insert_row params c ≡ some r) × P r × (r.uid ≡ c.uid)) cs
  unfolding insert_row
  All-from [] P h sub = tt
  All-from (c ∷ cs) P (h, hs) sub =
      let (x, e) = value (params c) h in
      let made : insert_row params c ≡ some (row_of params c x) = rw e refl in
      (
        (row_of params c x, made, sub (row_of params c x) (inl made), refl),
        All-from cs P hs (λ r i. sub r (inr i)),
      )
    where
      value : (o : Option C) → is_some o ≡ true → (a : C) × (o ≡ some a)
      value none h = absurd (ground (arith, h))
      value (some a) h = (a, refl)

  retired_rows :
      (filename source : Text) (cs : List (Cto B)) (rs : List (Row C))
      → All (λ r. is_prior filename source r ≡ false) rs
      → All (λ r. IsFrom r cs ⊎ NotCurrent filename source r) rs
  retired_rows filename source cs [] h = tt
  retired_rows filename source cs (r ∷ rs) (h, hs) =
      (inr (is_prior-NotCurrent filename source r h), retired_rows filename source cs rs hs)

  -- A batch whose first object names a KMZ and the channel that it came by, and whose rows can all be
  -- made, is written. Then each row of the table is that of an object of the batch, or it is of another
  -- KMZ, or came by another channel, or is retired; each row that was in the table is unchanged in it,
  -- or was a current one of this KMZ by this channel and has the time of the first object as its
  -- `valid_to`; and the table has a row with the uid of each object.
  pub write_supersedes :
      (sample : Cto B) (ctos : List (Cto B)) (db : Db C) (f s : ℕ) (filename source : Text)
      → lookup (codes "parent_kmz_filename") sample.attributes ≡ some (f ∷ filename)
      → lookup (codes "parent_kmz_source") sample.attributes ≡ some (s ∷ source)
      → All (λ c. is_some (params c) ≡ true) (sample ∷ ctos)
      → (counts : ℕ × ℕ) × (db' : Db C) × (write_ctos_with_supersession params (sample ∷ ctos) db
          ≡ some (counts, db'))
        × All
            (λ r. IsFrom r (sample ∷ ctos) ⊎ NotCurrent (f ∷ filename) (s ∷ source) r)
            db'.cto_table
        × All
            (λ r. Retired (f ∷ filename) (s ∷ source) sample.received_at r db'.cto_table)
            db.cto_table
        × All (λ c. Named c.uid db'.cto_table) (sample ∷ ctos)
  unfolding write_ctos_with_supersession supersede_prior
  write_supersedes sample ctos db f s filename source has_file has_source made =
      let superseded =
        supersede_prior (f ∷ filename) (s ∷ source) sample.received_at
          (lookup (codes "parent_kmz_uri") sample.attributes) db in
      let (counts, db', written, all, keeps, names) =
        insert_batch-All (λ r. IsFrom r (sample ∷ ctos) ⊎ NotCurrent (f ∷ filename) (s ∷ source) r)
          (sample ∷ ctos) superseded.0 superseded.1
          (All-from (sample ∷ ctos)
            (λ r. IsFrom r (sample ∷ ctos) ⊎ NotCurrent (f ∷ filename) (s ∷ source) r) made
            (λ r i. inl i))
          (retired_rows (f ∷ filename) (s ∷ source) (sample ∷ ctos) superseded.1.cto_table
            (retire_clears (f ∷ filename) (s ∷ source) sample.received_at db.cto_table)) in
      (
        counts,
        db',
        rw (has_file, has_source) written,
        all,
        All-of (λ r. Retired (f ∷ filename) (s ∷ source) sample.received_at r db'.cto_table)
            db.cto_table
            (λ r h.
              still db' r keeps
                (retire_keeps (f ∷ filename) (s ∷ source) sample.received_at db.cto_table r h)),
        names,
      )
    where
      still :
          (db' : Db C) (r : Row C)
          → Keeps (retire (f ∷ filename) (s ∷ source) sample.received_at db.cto_table) db'.cto_table
          → Retired
              (f ∷ filename)
              (s ∷ source)
              sample.received_at
              r
              (retire (f ∷ filename) (s ∷ source) sample.received_at db.cto_table)
          → Retired (f ∷ filename) (s ∷ source) sample.received_at r db'.cto_table
      still db' r k (inl (c, h)) = inl (c, k (retired_at sample.received_at r) h)
      still db' r k (inr h) = inr (k r h)
