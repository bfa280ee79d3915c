-- ===== src/JsMap.antt =====
-- JavaScript's `Map` with string keys, as the program uses it: its entries in insertion order. A
-- key keeps its place when its value is set again.
pub mod Laws
use jiffy_messaging.Base.{
  String, Bool, true, false, Option, none, some, List, [], ◌∷◌, map, ◌==◌, if◌then◌else◌, not, any,
  keep_if, ◌≡◌, ◌&&◌, ℕ, length,
}

pub record JsMap {ℓ} (V : Type ℓ) : Type ℓ where
  pub entries : List (String × V)

module _ {ℓ} {V : Type ℓ} where
  unfoldable pub lookup : String → List (String × V) → Option V
  lookup k [] = none
  lookup k ((j, v) ∷ es) = if j == k then some v else lookup k es

  unfoldable pub store : String → V → List (String × V) → List (String × V)
  store k v [] = (k, v) ∷ []
  store k v ((j, w) ∷ es) = if j == k then (j, v) ∷ es else (j, w) ∷ store k v es

  unfoldable pub without : String → List (String × V) → List (String × V)
  without k [] = []
  without k ((j, v) ∷ es) = if j == k then without k es else (j, v) ∷ without k es

  abbrev pub has_key : String → List (String × V) → Bool
  has_key k es = any (λ e. e.0 == k) es

  -- No key stands twice.
  abbrev pub HasDistinctKeys : List (String × V) → Type 0
  HasDistinctKeys [] = Unit
  HasDistinctKeys ((k, v) ∷ es) = (has_key k es ≡ false) × HasDistinctKeys es

  abbrev pub new_map : JsMap V
  new_map = record { entries = [] }

  -- `m.get(k)`
  unfoldable pub get : JsMap V → String → Option V
  unfolding lookup
  get m k = lookup k m.entries

  -- `m.set(k, v)`
  unfoldable pub set : JsMap V → String → V → JsMap V
  unfolding store
  set m k v = record { entries = store k v m.entries }

  -- `m.delete(k)`
  unfoldable pub delete : JsMap V → String → JsMap V
  unfolding without
  delete m k = record { entries = without k m.entries }

  -- `[...m.values()]`
  unfoldable pub values : JsMap V → List V
  values m = map (λ e. e.1) m.entries

  -- `m.size`
  unfoldable pub size : JsMap V → ℕ
  size m = length m.entries
