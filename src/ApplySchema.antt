-- ===== src/ApplySchema.antt =====
-- scripts/apply-schema.mjs: which files it applies, in which order, and how it exits. What it writes
-- to the console is left out.
pub mod Order
pub mod Exit
use Prim.Native.String
use jiffy_messaging.Base.{
  ℕ, String, Bool, true, false, Option, none, some, List, [], ◌∷◌, length, leb, keep_if, not, ◌&&◌,
  ◌||◌, ◌==◌, if◌then◌else◌,
}
use jiffy_messaging.Text.{is_empty}
use jiffy_messaging.Text.Order.{sort_texts}
use jiffy_messaging.Exec.{Result, ok, err, Exec, pure, ◌>>=◌}

-- What the script uses of Node and of the package pg; `S` is the world that they act on. A query is
-- a method for each type of its rows. `read_file` reads a file of `schemaDir`.
pub record Host (S : Type 0) : Type 0 where
  pub database_url : Option String
  pub names : List String
  pub read_file : String → Result String
  pub query : String → Exec S (Unit {0})
  pub query_tables : String → Exec S (List String)
  pub query_columns : String → Exec S (List (String × String))
  pub end_pool : Exec S (Unit {0})

-- `s.endsWith(suffix)`
unfoldable pub ends_with : String → String → Bool
ends_with suffix String.[] = is_empty suffix
ends_with suffix (String.◌∷◌ c s) = (String.◌∷◌ c s == suffix) || ends_with suffix s

abbrev pub is_later_file : String → Bool
is_later_file name = ends_with ".sql" name && not (name == "schema.sql")

unfoldable pub later_files : List String → List String
later_files names = sort_texts (keep_if is_later_file names)

abbrev pub files_of : List String → List String
files_of names = "schema.sql" ∷ later_files names

abbrev pub tables_text : String
tables_text =
    "SELECT name\n         FROM (VALUES ('conversations'), ('conversation_participants'), ('messages')) AS t (name)\n        WHERE to_regclass(name) IS NOT NULL\n        ORDER BY name"

abbrev pub columns_text : String
columns_text =
    "SELECT table_name, column_name\n         FROM information_schema.columns\n        WHERE table_schema = ANY (current_schemas(false))\n          AND (table_name, column_name) IN\n              (('messages', 'deleted_at'), ('conversation_participants', 'cleared_at'))"

abbrev pub is_number : ℕ → ℕ → Bool
is_number n m = leb n m && leb m n

module _ {S : Type 0} (host : Host S) where
  abbrev pub apply_file : String → Exec S (Unit {0})
  apply_file file = (λ s. (host.read_file file, s)) >>= host.query

  -- The `catch` of the loop leaves it by `break`.
  abbrev pub after_file : Result (Unit {0}) → (S → Bool × S) → S → Bool × S
  after_file (ok done) rest s = rest s
  after_file (err e) rest s = (false, s)

  -- The loop; `false` is that it was left by `break`, with the exit code set to 1.
  unfoldable pub apply_files : List String → S → Bool × S
  apply_files [] s = (true, s)
  apply_files (file ∷ files) s =
      after_file (apply_file file s).0 (λ s'. apply_files files s') (apply_file file s).1

  -- What is checked behind the loop, with whether the exit code is left alone.
  unfoldable pub check_schema : Exec S Bool
  check_schema = do
    rows ← host.query_tables tables_text
    columns ← host.query_columns columns_text
    pure (is_number (length rows) 3 && is_number (length columns) 2)

  abbrev pub checked : Bool × S → Result Bool × S
  checked (true, s) = check_schema s
  checked (false, s) = (ok false, s)

  -- The `catch` behind the checks, and `finally`: a rejection of `pool.end()` is thrown out of the
  -- module, which Node answers with the exit code 1.
  abbrev pub exit_code : Result Bool → Result (Unit {0}) → ℕ
  exit_code (ok true) (ok done) = 0
  exit_code (ok true) (err e) = 1
  exit_code (ok false) ended = 1
  exit_code (err e) ended = 1

  abbrev pub finished : Result Bool × S → ℕ × S
  finished (r, s) = (exit_code r (host.end_pool s).0, (host.end_pool s).1)

  abbrev pub apply_to : Option String → S → ℕ × S
  apply_to none s = (1, s)
  apply_to (some url) s =
      if is_empty url then (1, s) else finished (checked (apply_files (files_of host.names) s))

  -- The script: its exit code.
  unfoldable pub apply_schema : S → ℕ × S
  unfolding apply_files check_schema later_files
  apply_schema s = apply_to host.database_url s
