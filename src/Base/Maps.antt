-- ===== src/Base/Maps.antt =====
-- A JavaScript Map with text keys, as its entries in the order of insertion.
use Prim.Native.Nat.{◌+◌, ◌≤◌}
use Prim.Native.String.{String}
use mathlib.Core.Path.{◌≡◌, subst}
use mathlib.Core.Logic.{inl, inr}
use mathlib.Core.Bool.{Bool, false, ◌||◌}
use mathlib.Core.Option.{Option, none, some}
use mathlib.Core.List.{List, [], ◌∷◌}
use native.Mathlib.Omega.{arith}
use text.Mathlib.Text.{◌==◌}
use text.Mathlib.TextEquality.{eq_iff}
use openclaw_sip_voice.Base.Tests.{if◌then◌else◌, Bool-cases}
use openclaw_sip_voice.Base.Lists.{length, All}

module _ {ℓ} {V : Type ℓ} where
  unfoldable pub map_get : String → List (String × V) → Option V
  map_get key [] = none
  map_get key ((k, v) ∷ m) = if k == key then some v else map_get key m

  unfoldable pub map_has : String → List (String × V) → Bool
  map_has key [] = false
  map_has key ((k, v) ∷ m) = k == key || map_has key m

  -- A key that is there keeps its place.
  unfoldable pub map_set : String → V → List (String × V) → List (String × V)
  map_set key v [] = (key, v) ∷ []
  map_set key v ((k, w) ∷ m) = if k == key then (key, v) ∷ m else (k, w) ∷ map_set key v m

  unfoldable pub map_delete : String → List (String × V) → List (String × V)
  map_delete key [] = []
  map_delete key ((k, v) ∷ m) = if k == key then map_delete key m else (k, v) ∷ map_delete key m

  pub length-map_set :
      (key : String) (v : V) (m : List (String × V)) → length (map_set key v m) ≤ length m + 1
  unfolding map_set
  length-map_set key v [] = omega arith
  length-map_set key v ((k, w) ∷ m) = ground (arith, length-map_set key v m)

  pub length-map_delete :
      (key : String) (m : List (String × V)) → length (map_delete key m) ≤ length m
  unfolding map_delete
  length-map_delete key [] = omega arith
  length-map_delete key ((k, w) ∷ m) = ground (arith, length-map_delete key m)

  -- Taking out a key that is there makes room.
  pub length-map_delete_of_get :
      (key : String) (v : V) (m : List (String × V))
      → map_get key m ≡ some v
      → length (map_delete key m) + 1 ≤ length m
  unfolding map_get map_delete
  length-map_delete_of_get key v [] h = cc
  length-map_delete_of_get key v ((k, w) ∷ m) h =
      ground (arith, length-map_delete key m, length-map_delete_of_get key v m)

  module _ {κ} (P : String × V → Type κ) where
    pub All-map_delete : (key : String) (m : List (String × V)) → All P m → All P (map_delete key m)
    unfolding map_delete
    All-map_delete key [] h = tt
    All-map_delete key ((k, v) ∷ m) h = ground (arith, All-map_delete key m h.1)

    pub All-map_set :
        (key : String) (v : V) (m : List (String × V))
        → P (key, v)
        → All P m
        → All P (map_set key v m)
    unfolding map_set
    All-map_set key v [] p h = (p, tt)
    All-map_set key v ((k, w) ∷ m) p h = ground (arith, All-map_set key v m p h.1)

    pub All-map_get :
        (key : String) (v : V) (m : List (String × V))
        → All P m
        → map_get key m ≡ some v
        → P (key, v)
    unfolding map_get
    All-map_get key v [] h e = cc
    All-map_get key v ((k, w) ∷ m) h e = elim (Bool-cases (k == key)) [
      | inl here ↦
          let same : w ≡ v = ground arith in subst P (λ i. ((eq_iff k key).0 here i, same i)) h.0
      | inr there ↦ All-map_get key v m h.1 (ground arith)
    ]
