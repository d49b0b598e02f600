-- ===== src/Json.antt =====
-- Values of Python's `json` module: what `json.loads` returns and `json.dumps` takes.
-- `real n k` is n / 10^k, a number written with a point or an exponent; NaN and the infinities
-- are left out.
use nitzan_shinnies_inspecti.Prelude.Eq.{String-eq}
use nitzan_shinnies_inspecti.Prelude.{
  ◌≡◌, refl, arith, ℕ, String, Bool, true, false, ◌&&◌, ◌||◌, Option, none, some, List, [], ◌∷◌,
  if◌then◌else◌,
}
use nitzan_shinnies_inspecti.Prelude.Int.{ℤ, ℤ-eq}
use text.Mathlib.Text.{◌==◌}

mutual
  pub data Json : Type 0 where
    null : Json
    bool : Bool → Json
    int : ℤ → Json
    real : ℤ → ℕ → Json
    str : String → Json
    arr : Items → Json
    obj : Fields → Json

  pub data Items : Type 0 where
    nil : Items
    cons : Json → Items → Items

  pub data Fields : Type 0 where
    end : Fields
    field : String → Json → Fields → Fields

-- d.get(key), and `key in d`
unfoldable pub get_field : Fields → String → Option Json
get_field end k = none
get_field (field j v d) k = if j == k then some v else get_field d k

abbrev pub has_field : Fields → String → Bool
has_field d k = elim (get_field d k) [ none ↦ false | some v ↦ true ]

-- {**d, key: v}
unfoldable pub set_field : Fields → String → Json → Fields
set_field end k v = field k v end
set_field (field j w d) k v = if j == k then field j v d else field j w (set_field d k v)

abbrev pub field_names : Fields → List String
field_names end = []
field_names (field j v d) = j ∷ field_names d

-- `key in ("a", "b")`, also for a frozenset
abbrev pub one_of : String → List String → Bool
one_of k [] = false
one_of k (j ∷ js) = (k == j) || one_of k js

abbrev pub all_in : List String → List String → Bool
all_in [] allowed = true
all_in (k ∷ ks) allowed = one_of k allowed && all_in ks allowed

-- isinstance(v, str), (int and not bool), bool
abbrev pub is_str : Json → Bool
is_str (str s) = true
is_str _ = false

abbrev pub is_int : Json → Bool
is_int (int n) = true
is_int _ = false

abbrev pub is_bool : Json → Bool
is_bool (bool b) = true
is_bool _ = false

abbrev pub is_null : Json → Bool
is_null null = true
is_null _ = false

pub get_field-set_field :
    (d : Fields) (k j : String) (v : Json)
    → get_field (set_field d k v) j ≡ (if k == j then some v else get_field d j)
unfolding get_field set_field
get_field-set_field end k j v = refl
get_field-set_field (field i w d) k j v = ground (
  arith,
  String-eq.beq_iff i k,
  String-eq.beq_iff i j,
  String-eq.beq_iff k j,
  get_field-set_field d k j v,
)
