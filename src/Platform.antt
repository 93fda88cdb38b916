-- ===== src/Platform.antt =====
-- What the program takes from outside the repository: the container library `SimpleMap` and
-- floating-point numbers. Both are parameters of the model.
pub mod Assoc
pub mod Example
use Assoc.{lookup}
use stacx.Prelude.{◌≡◌, Bool, List, false, Option, none, some, if◌then◌else◌, is_some}
use stacx.Prelude.Text.{Text, text_eq, text_eq_refl}

-- The documented behaviour of `SimpleMap<String, V>`: `find` joins `has` and `get`, and `entries`
-- is the sequence of `getKey(i)`, `getData(i)` for `i` below `size()`.
pub record SimpleMap : Type 1 where
  pub Map : Type 0 → Type 0
  pub empty : {V : Type 0} → Map V
  pub find : {V : Type 0} → Map V → Text → Option V
  pub put : {V : Type 0} → Map V → Text → V → Map V
  pub remove : {V : Type 0} → Map V → Text → Map V
  pub entries : {V : Type 0} → Map V → List (Text × V)
  pub find-empty : {V : Type 0} (j : Text) → find (empty {V = V}) j ≡ none
  pub find-put :
      {V : Type 0} (m : Map V) (k : Text) (v : V) (j : Text)
      → find (put m k v) j ≡ (if text_eq k j then some v else find m j)
  pub find-remove :
      {V : Type 0} (m : Map V) (k j : Text)
      → find (remove m k) j ≡ (if text_eq k j then none else find m j)
  pub find-entries : {V : Type 0} (m : Map V) (j : Text) → find m j ≡ lookup j (entries m)

-- `float` and `double`, with their conversions from and to text.
pub record Floats : Type 1 where
  pub Float : Type 0
  pub is_nan : Float → Bool
  pub float_eq : Float → Float → Bool
  pub to_float : Text → Float
  pub show_float : Float → Text
  pub Double : Type 0
  pub double_is_nan : Double → Bool
  pub double_eq : Double → Double → Bool
  pub to_double : Text → Double
  pub show_double : Double → Text

pub record Platform : Type 1 where
  pub maps : SimpleMap
  pub open maps use *
  pub floats : Floats
  pub open floats use *

-- map.has(key)
abbrev pub has : (P : Platform) {V : Type 0} → P.Map V → Text → Bool
has P m k = is_some (P.find m k)

pub find-put_self :
    (P : Platform) {V : Type 0} (m : P.Map V) (k : Text) (v : V) → P.find (P.put m k v) k ≡ some v
find-put_self P m k v = rw (P.find-put m k v k, text_eq_refl k)

pub find-put_ne :
    (P : Platform) {V : Type 0} (m : P.Map V) (k j : Text) (v : V)
    → text_eq k j ≡ false
    → P.find (P.put m k v) j ≡ P.find m j
find-put_ne P m k j v h = rw (P.find-put m k v j, h)
