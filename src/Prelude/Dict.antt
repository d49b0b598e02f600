-- ===== src/Prelude/Dict.antt =====
-- Python's `dict`: entries in insertion order, and a write to a present key keeps its place.
use mathlib.Core.Path.{◌≡◌, refl}
use mathlib.Core.Option.{Option, none, some}
use mathlib.Core.List.{List, [], ◌∷◌, map}
use native.Mathlib.Omega.{arith}
use nitzan_shinnies_inspecti.Prelude.{if◌then◌else◌}
use nitzan_shinnies_inspecti.Prelude.Eq.{Eq, ◌==◌}

abbrev pub Dict : Type 0 → Type 0 → Type 0
Dict K V = List (K × V)

module _ {K V : Type 0} ⦃e : Eq K⦄ where
  -- d.get(k)
  unfoldable pub get : Dict K V → K → Option V
  get [] k = none
  get ((j, v) ∷ d) k = if j == k then some v else get d k

  -- d[k] = v
  unfoldable pub put : Dict K V → K → V → Dict K V
  put [] k v = (k, v) ∷ []
  put ((j, w) ∷ d) k v = if j == k then (j, v) ∷ d else (j, w) ∷ put d k v

  -- d.pop(k, None)
  unfoldable pub remove : Dict K V → K → Dict K V
  remove [] k = []
  remove ((j, w) ∷ d) k = let rest = remove d k in if j == k then rest else (j, w) ∷ rest

  pub get-put :
      (d : Dict K V) (k j : K) (v : V) → get (put d k v) j ≡ (if k == j then some v else get d j)
  unfolding get put
  get-put [] k j v = refl
  get-put ((i, w) ∷ d) k j v =
      ground (arith, e.beq_iff i k, e.beq_iff i j, e.beq_iff k j, get-put d k j v)

  pub get-remove :
      (d : Dict K V) (k j : K) → get (remove d k) j ≡ (if k == j then none else get d j)
  unfolding get remove
  get-remove [] k j = ground arith
  get-remove ((i, w) ∷ d) k j =
      ground (arith, e.beq_iff i k, e.beq_iff i j, e.beq_iff k j, get-remove d k j)

module _ {K V : Type 0} where
  unfoldable pub keys : Dict K V → List K
  keys d = map (λ kv. kv.0) d

  unfoldable pub values : Dict K V → List V
  values d = map (λ kv. kv.1) d

-- d.get(k, default), and the entry of a defaultdict
abbrev pub or_default : {V : Type 0} → Option V → V → V
or_default none v = v
or_default (some w) v = w

pub ruleset dict_laws = (get-put, get-remove)
