-- ===== src/Headers.antt =====
-- `HashMap<String, String>`, as the source uses it for headers: an association list in which a key
-- stands once. A function that walks a map takes the order as a parameter, or sorts the entries.
pub mod Laws
use freeswitch_esl_rs.Prelude.{if◌then◌else◌, Option, none, some, List, [], ◌∷◌, Bytes}
use freeswitch_esl_rs.Text.{bytes_eq}

abbrev pub Headers : Type 0
Headers = List (Bytes × Bytes)

module _ {ℓ} {V : Type ℓ} where
  unfoldable pub get : List (Bytes × V) → Bytes → Option V
  get [] k = none
  get ((j, v) ∷ m) k = if bytes_eq j k then some v else get m k

  -- An insertion overwrites the value of a key that is there.
  unfoldable pub insert : List (Bytes × V) → Bytes → V → List (Bytes × V)
  insert [] k v = (k, v) ∷ []
  insert ((j, w) ∷ m) k v = if bytes_eq j k then (j, v) ∷ m else (j, w) ∷ insert m k v

  unfoldable pub remove : List (Bytes × V) → Bytes → List (Bytes × V)
  remove [] k = []
  remove ((j, w) ∷ m) k = if bytes_eq j k then remove m k else (j, w) ∷ remove m k
