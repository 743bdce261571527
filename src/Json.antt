-- ===== src/Json.antt =====
-- The Python values that `json.loads` returns, with the operations that the program makes on them.
use lead_finder.Prelude.{
  ℕ, ◌≡◌, refl, Bool, true, false, not, ◌==◌, Option, none, some, arith, List, [], ◌∷◌,
  if◌then◌else◌,
}
use lead_finder.Prelude.Int.{ℤ, pos, negsuc}
use lead_finder.Prelude.Text.{Text, truthy, text_eq, text_eq_refl, text_eq_iff}

mutual
  pub data Json : Type 0 where
    null : Json
    bool : Bool → Json
    int : ℤ → Json
    -- `float m e` is m / 10 ^ e
    float : ℤ → ℕ → Json
    str : Text → Json
    arr : Items → Json
    obj : Fields → Json

  pub data Items : Type 0 where
    nil : Items
    cons : Json → Items → Items

  -- A dict in insertion order.
  pub data Fields : Type 0 where
    end : Fields
    field : Text → Json → Fields → Fields

abbrev pub items : Items → List Json
items nil = []
items (cons x xs) = x ∷ items xs

-- `list(d)`
abbrev pub keys : Fields → List Text
keys end = []
keys (field k v fs) = k ∷ keys fs

-- `d.get(key)`
unfoldable pub get : Text → Fields → Option Json
get key end = none
get key (field k v fs) = if text_eq k key then some v else get key fs

-- `d[key] = value`
unfoldable pub put : Text → Json → Fields → Fields
put key value end = field key value end
put key value (field k v fs) =
    if text_eq k key then field k value fs else field k v (put key value fs)

-- `d.get(key, default)`
abbrev pub get_or : Text → Json → Fields → Json
get_or key default fs = elim (get key fs) [ none ↦ default | some v ↦ v ]

-- `{**d, **e}`
unfoldable pub merge : Fields → Fields → Fields
unfolding put
merge d end = d
merge d (field k v e) = merge (put k v d) e

-- `bool(v)`
abbrev pub truth : Json → Bool
truth null = false
truth (bool b) = b
truth (int (pos n)) = not (n == 0)
truth (int (negsuc n)) = true
truth (float (pos n) e) = not (n == 0)
truth (float (negsuc n) e) = true
truth (str s) = truthy s
truth (arr nil) = false
truth (arr (cons x xs)) = true
truth (obj end) = false
truth (obj (field k v fs)) = true

-- A write to one key does not change another.
pub get-put :
    (key j : Text) (v : Json) (fs : Fields)
    → get j (put key v fs) ≡ (if text_eq key j then some v else get j fs)
unfolding get put
get-put key j v end = refl
get-put key j v (field k w fs) =
    ground (arith, text_eq_iff k key, text_eq_iff k j, text_eq_iff key j, get-put key j v fs)

pub get-put_self : (key : Text) (v : Json) (fs : Fields) → get key (put key v fs) ≡ some v
get-put_self key v fs = ground (arith, get-put key key v fs, text_eq_refl key)
