-- ===== src/Prelude/Tables.antt =====
-- Go maps with deletion: `delete` on a map with text keys, and maps whose keys are pairs of texts.
use Prim.Native.String.{String}
use mathlib.Core.Path.{◌≡◌, refl}
use mathlib.Core.Bool.{Bool, ◌&&◌}
use mathlib.Core.Option.{Option, none, some}
use mathlib.Core.List.{List, [], ◌∷◌}
use native.Mathlib.Omega.{arith}
use text.Mathlib.Text.{◌==◌}
use text.Mathlib.TextEquality.{eq_iff}
use hmntsk.Prelude.Tests.{if◌then◌else◌}
use hmntsk.Prelude.Maps.{Map, get, put, get-put}

module _ {ℓ} {V : Type ℓ} where
  -- delete(m, k)
  unfoldable pub erase : Map V → String → Map V
  erase [] k = []
  erase ((j, v) ∷ m) k = let rest = erase m k in if j == k then rest else (j, v) ∷ rest

  pub get-erase :
      (m : Map V) (k j : String) → get (erase m k) j ≡ (if k == j then none else get m j)
  unfolding get erase
  get-erase [] k j = ground arith
  get-erase ((i, w) ∷ m) k j = ground (arith, get-erase m k j, eq_iff k j, eq_iff i k, eq_iff i j)

  -- No key stands twice.
  abbrev pub HasDistinctKeys : Map V → Type ℓ
  HasDistinctKeys [] = Unit
  HasDistinctKeys ((k, v) ∷ m) = (get m k ≡ none) × HasDistinctKeys m

  pub put-HasDistinctKeys :
      (m : Map V) (k : String) (v : V) → HasDistinctKeys m → HasDistinctKeys (put m k v)
  unfolding get put
  put-HasDistinctKeys [] k v d = (refl, tt)
  put-HasDistinctKeys ((j, w) ∷ m) k v d =
      ground (arith, put-HasDistinctKeys m k v d.1, get-put m k j v, eq_iff j k, eq_iff k j)

  pub erase-HasDistinctKeys :
      (m : Map V) (k : String) → HasDistinctKeys m → HasDistinctKeys (erase m k)
  unfolding get erase
  erase-HasDistinctKeys [] k d = tt
  erase-HasDistinctKeys ((j, w) ∷ m) k d =
      ground (arith, erase-HasDistinctKeys m k d.1, get-erase m k j, eq_iff j k, eq_iff k j)

abbrev pub PairKey : Type 0
PairKey = String × String

abbrev pub same_key : PairKey → PairKey → Bool
same_key a b = a.0 == b.0 && a.1 == b.1

abbrev pub PairMap {ℓ} : Type ℓ → Type ℓ
PairMap V = List (PairKey × V)

module _ {ℓ} {V : Type ℓ} where
  unfoldable pub find : PairMap V → PairKey → Option V
  find [] k = none
  find ((j, v) ∷ m) k = if same_key j k then some v else find m k

  unfoldable pub store : PairMap V → PairKey → V → PairMap V
  store [] k v = (k, v) ∷ []
  store ((j, w) ∷ m) k v = if same_key j k then (k, v) ∷ m else (j, w) ∷ store m k v

  unfoldable pub erase_pair : PairMap V → PairKey → PairMap V
  erase_pair [] k = []
  erase_pair ((j, v) ∷ m) k =
      let rest = erase_pair m k in if same_key j k then rest else (j, v) ∷ rest

  pub find-store :
      (m : PairMap V) (k j : PairKey) (v : V)
      → find (store m k v) j ≡ (if same_key k j then some v else find m j)
  unfolding find store
  find-store [] k j v = refl
  find-store ((i, w) ∷ m) k j v = ground (
    arith,
    find-store m k j v,
    eq_iff k.0 j.0,
    eq_iff k.1 j.1,
    eq_iff i.0 k.0,
    eq_iff i.1 k.1,
    eq_iff i.0 j.0,
    eq_iff i.1 j.1,
  )

  pub find-erase_pair :
      (m : PairMap V) (k j : PairKey)
      → find (erase_pair m k) j ≡ (if same_key k j then none else find m j)
  unfolding find erase_pair
  find-erase_pair [] k j = ground arith
  find-erase_pair ((i, w) ∷ m) k j = ground (
    arith,
    find-erase_pair m k j,
    eq_iff k.0 j.0,
    eq_iff k.1 j.1,
    eq_iff i.0 k.0,
    eq_iff i.1 k.1,
    eq_iff i.0 j.0,
    eq_iff i.1 j.1,
  )
