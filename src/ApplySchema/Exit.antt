-- ===== src/ApplySchema/Exit.antt =====
-- When scripts/apply-schema.mjs exits with 0.
use jiffy_messaging.Base.{
  ◌≡◌, refl, sym, ap, String, Bool, true, false, Option, some, List, [], ◌∷◌, ◌++◌, length, ◌↔◌,
  ◌⊎◌, inl, inr, arith, Bool-cases, none, subst,
}
use jiffy_messaging.Errors.{Error}
use jiffy_messaging.Exec.{Result, ok, err}
use jiffy_messaging.Exec.Laws.{Result-cases, >>=-eq-ok, pure-eq-ok}
use jiffy_messaging.Text.{is_empty}
use jiffy_messaging.ApplySchema.{
  Host, after_file, apply_file, apply_files, check_schema, apply_schema, files_of, tables_text,
  columns_text, checked, finished, apply_to,
}

module _ {S : Type 0} (host : Host S) where
  -- Each file in turn was read and taken by the database.
  pub data Applied : List String → S → S → Type 0 where
    done : {s : S} → Applied [] s s
    next :
        {file : String} {files : List String} {s s1 s' : S}
        → apply_file host file s ≡ (ok tt, s1)
        → Applied files s1 s'
        → Applied (file ∷ files) s s'

  -- All files were applied, or those before one that failed, and none behind it.
  pub Run : List String → S → Bool × S → Type 0
  Run files s (applied, s') =
      ((applied ≡ true) × Applied files s s')
      ⊎ ((applied ≡ false)
          × ((before : List String) × (failed : String) × (behind : List String) × (s1 : S)
              × (e : Error) × (files ≡ before ++ failed ∷ behind)
              × Applied before s s1
              × (apply_file host failed s1 ≡ (err e, s'))))

  -- The loop applies the files in their order up to the first that cannot be read or that the
  -- database refuses, and says whether there was none.
  pub apply_files-Run : (files : List String) (s : S) → Run files s (apply_files host files s)
  unfolding apply_files Run
  apply_files-Run [] s = inl (refl, done)
  apply_files-Run (file ∷ files) s =
      step (apply_file host file s).0 refl (apply_files-Run files (apply_file host file s).1)
    where
      after_rest :
          (s1 : S) (q : Bool × S)
          → apply_file host file s ≡ (ok tt, s1)
          → Run files s1 q
          → Run (file ∷ files) s q
      after_rest s1 q e (inl (all, applied)) = inl (all, next e applied)
      after_rest s1 q e (inr (not_all, (before, failed, behind, s2, f, split, applied, refused))) =
          inr (
            not_all,
            (file ∷ before, failed, behind, s2, f, ap (◌∷◌ file) split, next e applied, refused),
          )

      step :
          (r : Result (Unit {0}))
          → (apply_file host file s).0 ≡ r
          → Run files (apply_file host file s).1 (apply_files host files (apply_file host file s).1)
          → Run
              (file ∷ files)
              s
              (after_file host r (λ s'. apply_files host files s') (apply_file host file s).1)
      step (ok taken) e rest =
          after_rest (apply_file host file s).1 _ (ap (λ r. (r, (apply_file host file s).1)) e) rest
      step (err e) h rest =
          inr
            (refl, ([], file, files, s, e, refl, done, ap (λ r. (r, (apply_file host file s).1)) h))

  Applied-apply_files :
      (files : List String) (s s' : S) → Applied files s s' → apply_files host files s ≡ (true, s')
  unfolding apply_files
  Applied-apply_files [] s s' done = refl
  Applied-apply_files (file ∷ files) s s' (next e applied) =
      subst (λ q. after_file host q.0 (λ s1. apply_files host files s1) q.1 ≡ (true, s')) (sym e)
        (Applied-apply_files files _ s' applied)

  -- Every file was applied, the three tables and the two columns were found, and the pool closed.
  pub record Succeeds (s s' : S) : Type 0 where
    pub filled : (url : String) × (host.database_url ≡ some url) × (is_empty url ≡ false)
    pub in_place : S
    pub applied : Applied (files_of host.names) s in_place
    pub tables : List String
    pub tables_read : S
    pub tables_found : host.query_tables tables_text in_place ≡ (ok tables, tables_read)
    pub three : length tables ≡ 3
    pub columns : List (String × String)
    pub columns_read : S
    pub columns_found : host.query_columns columns_text tables_read ≡ (ok columns, columns_read)
    pub two : length columns ≡ 2
    pub closed : host.end_pool columns_read ≡ (ok tt, s')

  url_filled :
      (o : Option String) (s s' : S)
      → apply_to host o s ≡ (0, s')
      → ((url : String) × (o ≡ some url) × (is_empty url ≡ false))
        × (finished host (checked host (apply_files host (files_of host.names) s)) ≡ (0, s'))
  url_filled none s s' h = absurd (ground arith)
  url_filled (some url) s s' h = elim (Bool-cases (is_empty url)) [
    | inl empty ↦ absurd (ground arith)
    | inr filled ↦ ((url, refl, filled), ground arith)
  ]

  finished-zero :
      (q : Result Bool × S) (s' : S)
      → finished host q ≡ (0, s')
      → (q.0 ≡ ok true) × (host.end_pool q.1 ≡ (ok tt, s'))
  finished-zero (ok true, s1) s' h = elim (Result-cases (host.end_pool s1).0) [
    | inl (ended, e) ↦ (refl, λ i. (e i, ap (λ q. q.1) h i))
    | inr (e, k) ↦ absurd (ground arith)
  ]
  finished-zero (ok false, s1) s' h = absurd (ground arith)
  finished-zero (err e, s1) s' h = absurd (ground arith)

  checked-true :
      (q : Bool × S)
      → (checked host q).0 ≡ ok true
      → (q.0 ≡ true)
        × ((check_schema host q.1).0 ≡ ok true)
        × ((checked host q).1 ≡ (check_schema host q.1).1)
  checked-true (true, s1) h = (refl, h, refl)
  checked-true (false, s1) h = absurd (ground arith)

  -- The script exits with 0 exactly when DATABASE_URL is set and not empty, every file, in its
  -- order, was read and taken by the database, the three tables and the two columns were then
  -- found, and the pool was closed.
  pub apply_schema-zero_iff : (s s' : S) → (apply_schema host s ≡ (0, s')) ↔ Succeeds s s'
  unfolding apply_schema Run check_schema
  apply_schema-zero_iff s s' = (
    λ h.
        let (filled, ended) = url_filled host.database_url s s' h in
        let q = apply_files host (files_of host.names) s in
        let (all_well, closed) = finished-zero (checked host q) s' ended in
        let (applied, found, same) = checked-true q all_well in
        let (rows, s2, tables_found, rest) =
          >>=-eq-ok (host.query_tables tables_text) _ q.1 (λ i. (found i, sym same i)) in
        let (columns, s3, columns_found, last) =
          >>=-eq-ok (host.query_columns columns_text) _ s2 rest in
        let (counts, same3) = pure-eq-ok _ true s3 _ last in
        elim (apply_files-Run (files_of host.names) s) [
          | inl (_, all) ↦ record {
            filled = filled;
            in_place = q.1;
            applied = all;
            tables = rows;
            tables_read = s2;
            tables_found = tables_found;
            three = ground arith;
            columns = columns;
            columns_read = s3;
            columns_found = columns_found;
            two = ground arith;
            closed = subst (λ z. host.end_pool z ≡ (ok tt, s')) (sym same3) closed;
          }
          | inr (not_all, _) ↦ absurd (ground arith)
        ],
    λ w.
        let (url, given, filled) = w.filled in
        rw
          (
            given,
            filled,
            Applied-apply_files _ s w.in_place w.applied,
            w.tables_found,
            w.columns_found,
            w.three,
            w.two,
            w.closed,
          )
          refl,
  )
