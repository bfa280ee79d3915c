-- ===== src/ApplySchema/Order.antt =====
-- The order in which scripts/apply-schema.mjs applies the files.
use jiffy_messaging.Base.{
  ◌≡◌, refl, String, Bool, List, [], ◌∷◌, any, keep_if, ◌==◌, ◌&&◌, arith, eq_iff, Rearranged,
  any-Rearranged, ◌∙◌,
}
use jiffy_messaging.Text.Order.{IsSorted, sort-IsSorted, sort-Rearranged}
use jiffy_messaging.ApplySchema.{is_later_file, later_files, files_of}

any-keep_if :
    (p : String → Bool) (f : String) (names : List String)
    → any (λ n. n == f) (keep_if p names) ≡ (p f && any (λ n. n == f) names)
any-keep_if p f [] = ground arith
any-keep_if p f (n ∷ ns) = ground (arith, any-keep_if p f ns, eq_iff n f)

-- The first file is the base schema. The rest are, in the order of their names and as often as the
-- directory has them, its files that end in .sql, without the base schema.
pub files_of_lem :
    (names : List String)
    → (files_of names ≡ "schema.sql" ∷ later_files names)
      × IsSorted (later_files names)
      × Rearranged (later_files names) (keep_if is_later_file names)
      × ((f : String)
          → any (λ n. n == f) (later_files names) ≡ (is_later_file f && any (λ n. n == f) names))
unfolding later_files
files_of_lem names = (
  refl,
  sort-IsSorted (keep_if is_later_file names),
  sort-Rearranged (keep_if is_later_file names),
  λ f.
      any-Rearranged (λ n. n == f) (sort-Rearranged (keep_if is_later_file names))
      ∙ any-keep_if is_later_file f names,
)
