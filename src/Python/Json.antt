-- ===== src/Python/Json.antt =====
-- JSON values as `json.loads` returns them, and the few operations of Python that the program
-- applies to such a value.
use salesforce_erp_sync.Common.{
  zero, suc, String, Bool, true, false, not, Option, none, some, str_eq, ltb, if◌then◌else◌, ℤ, pos,
  negsuc, str_of_ℕ, ◌<>◌, Dict, List, [], ◌∷◌,
}
use salesforce_erp_sync.Python.Decimal.{Number, finite, infinite, nan}

-- `number` is a number written with a fraction or an exponent, or one of NaN and the infinities.
mutual
  pub data Json : Type 0 where
    null : Json
    bool : Bool → Json
    int : ℤ → Json
    number : Number → Json
    text : String → Json
    array : Items → Json
    object : Fields → Json

  pub data Items : Type 0 where
    nil : Items
    cons : Json → Items → Items

  pub data Fields : Type 0 where
    end : Fields
    field : String → Json → Fields → Fields

-- `d.get(name)`; a dict has each key once
unfoldable pub get : Fields → String → Option Json
get end name = none
get (field k v fs) name = if str_eq k name then some v else get fs name

-- `d.get(name)` where a missing key and a null are the same
unfoldable pub get_or_null : Fields → String → Json
unfolding get
get_or_null end name = null
get_or_null (field k v fs) name = if str_eq k name then v else get_or_null fs name

-- Python's truth of a value
unfoldable pub truthy : Json → Bool
truthy null = false
truthy (bool b) = b
truthy (int (pos zero)) = false
truthy (int (pos (suc n))) = true
truthy (int (negsuc n)) = true
truthy (number (finite d)) = ltb 0 d.coefficient
truthy (number (infinite b)) = true
truthy (number nan) = true
truthy (text s) = not (str_eq s "")
truthy (array nil) = false
truthy (array (cons v vs)) = true
truthy (object end) = false
truthy (object (field k v fs)) = true

-- `str(n)` of an int
unfoldable pub str_of_int : ℤ → String
unfolding str_of_ℕ
str_of_int (pos n) = str_of_ℕ n
str_of_int (negsuc n) = "-" <> str_of_ℕ (suc n)

-- `d[name] = v`: a key that is there keeps its place
unfoldable pub set : Fields → String → Json → Fields
set end name v = field name v end
set (field k w fs) name v = if str_eq k name then field k v fs else field k w (set fs name v)

-- `d.update(other)`, and `{**d, **other}`
unfoldable pub update : Fields → Dict Json → Fields
unfolding set
update d [] = d
update d ((k, v) ∷ rest) = update (set d k v) rest

unfoldable pub items_of : List Json → Items
items_of [] = nil
items_of (v ∷ vs) = cons v (items_of vs)
