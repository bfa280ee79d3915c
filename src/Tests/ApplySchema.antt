-- ===== src/Tests/ApplySchema.antt =====
-- Instances of the theorems on scripts/apply-schema.mjs.
use jiffy_messaging.Base.{◌≡◌, ◌↔◌, refl, String, some, List, [], ◌∷◌, ◌++◌}
use jiffy_messaging.Exec.{ok}
use jiffy_messaging.Text.{is_empty}
use jiffy_messaging.Text.Order.{sort_texts, insert_text}
use jiffy_messaging.ApplySchema.{
  Host, later_files, apply_files, apply_schema, check_schema, ends_with,
}
use jiffy_messaging.ApplySchema.Exit.{Succeeds, apply_schema-zero_iff}

-- The world is the list of the texts that the database took.
abbrev host : Host (List String)
host = record {
  database_url = some "postgres://localhost/messaging";
  names = "rows.ts" ∷ "schema.sql" ∷ "2026-08-25-deletes.sql" ∷ [];
  read_file = λ name. ok name;
  query = λ text s. (ok tt, s ++ text ∷ []);
  query_tables =
      λ text s. (ok ("conversation_participants" ∷ "conversations" ∷ "messages" ∷ []), s);
  query_columns = λ text s.
      (ok (("messages", "deleted_at") ∷ ("conversation_participants", "cleared_at") ∷ []), s);
  end_pool = λ s. (ok tt, s);
}

apply_schema-zero_iff_example :
    (apply_schema host [] ≡ (0, "schema.sql" ∷ "2026-08-25-deletes.sql" ∷ []))
    ↔ Succeeds host [] ("schema.sql" ∷ "2026-08-25-deletes.sql" ∷ [])
apply_schema-zero_iff_example =
    apply_schema-zero_iff host [] ("schema.sql" ∷ "2026-08-25-deletes.sql" ∷ [])

it_exits_with_0 : apply_schema host [] ≡ (0, "schema.sql" ∷ "2026-08-25-deletes.sql" ∷ [])
unfolding apply_schema apply_files check_schema later_files sort_texts insert_text ends_with
    is_empty
it_exits_with_0 = refl
