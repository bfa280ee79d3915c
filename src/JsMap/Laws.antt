-- ===== src/JsMap/Laws.antt =====
-- What `get` sees after `set` and `delete`, and the keys that stay distinct.
use jiffy_messaging.Base.{
  String, false, none, some, List, [], ◌∷◌, ◌==◌, if◌then◌else◌, ◌≡◌, refl, arith, eq_iff, eq_refl,
  ◌||◌,
}
use jiffy_messaging.JsMap.{
  JsMap, lookup, store, without, has_key, HasDistinctKeys, get, set, delete,
}

module _ {ℓ} {V : Type ℓ} where
  lookup-store :
      (k j : String) (v : V) (es : List (String × V))
      → lookup j (store k v es) ≡ (if k == j then some v else lookup j es)
  unfolding lookup store
  lookup-store k j v [] = refl
  lookup-store k j v ((i, w) ∷ es) =
      ground (arith, lookup-store k j v es, eq_iff i k, eq_iff i j, eq_iff k j)

  lookup-without :
      (k j : String) (es : List (String × V))
      → lookup j (without k es) ≡ (if k == j then none else lookup j es)
  unfolding lookup without
  lookup-without k j [] = ground arith
  lookup-without k j ((i, w) ∷ es) =
      ground (arith, lookup-without k j es, eq_iff i k, eq_iff i j, eq_iff k j)

  pub get-set :
      (m : JsMap V) (k j : String) (v : V)
      → get (set m k v) j ≡ (if k == j then some v else get m j)
  unfolding get set
  get-set m k j v = lookup-store k j v m.entries

  pub get-delete :
      (m : JsMap V) (k j : String) → get (delete m k) j ≡ (if k == j then none else get m j)
  unfolding get delete
  get-delete m k j = lookup-without k j m.entries

  pub get-set_self : (m : JsMap V) (k : String) (v : V) → get (set m k v) k ≡ some v
  get-set_self m k v = rw (get-set m k k v, eq_refl k)

  pub get-set_other :
      (m : JsMap V) (k j : String) (v : V) → (k == j) ≡ false → get (set m k v) j ≡ get m j
  get-set_other m k j v other = rw (get-set m k j v, other)

  pub has_key-store :
      (k j : String) (v : V) (es : List (String × V))
      → has_key j (store k v es) ≡ (k == j || has_key j es)
  unfolding store
  has_key-store k j v [] = refl
  has_key-store k j v ((i, w) ∷ es) =
      ground (arith, has_key-store k j v es, eq_iff i k, eq_iff i j, eq_iff k j)

  has_key-without :
      (k j : String) (es : List (String × V))
      → has_key j es ≡ false
      → has_key j (without k es) ≡ false
  unfolding without
  has_key-without k j [] h = refl
  has_key-without k j ((i, w) ∷ es) h = ground (arith, has_key-without k j es)

  pub set-HasDistinctKeys :
      (k : String) (v : V) (es : List (String × V))
      → HasDistinctKeys es
      → HasDistinctKeys (store k v es)
  unfolding store
  set-HasDistinctKeys k v [] h = (refl, tt)
  set-HasDistinctKeys k v ((i, w) ∷ es) (h, hs) =
      ground (arith, has_key-store k i v es, set-HasDistinctKeys k v es, eq_iff i k, eq_iff k i)

  pub delete-HasDistinctKeys :
      (k : String) (es : List (String × V)) → HasDistinctKeys es → HasDistinctKeys (without k es)
  unfolding without
  delete-HasDistinctKeys k [] h = tt
  delete-HasDistinctKeys k ((i, w) ∷ es) (h, hs) =
      ground (arith, has_key-without k i es, delete-HasDistinctKeys k es)
