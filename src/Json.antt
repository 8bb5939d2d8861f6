-- ===== src/Json.antt =====
-- The JavaScript values that the engines read (`unknown` in the source): what `JSON.parse` returns,
-- with `undefined` and the numbers that are not finite. Functions, symbols, bigints and objects of a
-- class of their own are not among them.
pub mod Pointer
pub mod Shape
pub mod Stringify
use open_audit_model.Common.{
  ℕ, suc, String, Bool, true, false, Option, none, some, List, [], ◌∷◌, if◌then◌else◌, ◌===◌, ◌==◌,
  ◌+◌, ◌-◌, not, ◌&&◌,
}

-- A number by what the source tells apart: -0, the other integers, and a finite number that is no
-- integer or a number that is not finite by the text that JavaScript prints for it.
pub data Number : Type 0 where
  nat : ℕ → Number
  neg : ℕ → Number
  neg_zero : Number
  fraction : String → Number
  non_finite : String → Number

-- `neg n` is -(n + 1). `Object.is` on numbers.
abbrev pub same_number : Number → Number → Bool
same_number (nat m) (nat n) = m == n
same_number (neg m) (neg n) = m == n
same_number neg_zero neg_zero = true
same_number (fraction s) (fraction t) = s === t
same_number (non_finite s) (non_finite t) = s === t
same_number _ _ = false

-- `Number.isInteger`
abbrev pub is_integer : Number → Bool
is_integer (fraction s) = false
is_integer (non_finite s) = false
is_integer n = true

-- `Number.isFinite`
abbrev pub is_finite : Number → Bool
is_finite (non_finite s) = false
is_finite n = true

mutual
  -- own enumerable properties, in order
  pub data Fields : Type 0 where
    field : String → Value → Fields → Fields
    end : Fields

  pub data Items : Type 0 where
    cons : Value → Items → Items
    nil : Items

  pub data Value : Type 0 where
    undef null : Value
    obj : Fields → Value
    arr : Items → Value
    num : Number → Value
    bool : Bool → Value
    str : String → Value

abbrev pub count_items : Items → ℕ
count_items nil = 0
count_items (cons v xs) = suc (count_items xs)

abbrev pub items : Items → List Value
items nil = []
items (cons v xs) = v ∷ items xs

abbrev pub fields : Fields → List (String × Value)
fields end = []
fields (field k v fs) = (k, v) ∷ fields fs

-- An own property of an object.
abbrev pub own : Fields → String → Option Value
own end k = none
own (field j v fs) k = if j === k then some v else own fs k

-- `record["k"]`: `undefined` where there is no such property.
abbrev pub member : Fields → String → Value
member end k = undef
member (field j v fs) k = if j === k then v else member fs k

-- `delete record["k"]`
abbrev pub delete : String → Fields → Fields
delete k end = end
delete k (field j v fs) = let rest = delete k fs in if j === k then rest else field j v rest

-- `{ ...record, k: v }`
abbrev pub assign : String → Value → Fields → Fields
assign k v end = field k v end
assign k v (field j w fs) = if j === k then field j v fs else field j w (assign k v fs)

-- `typeof value === "object" && value !== null && !Array.isArray(value)`
abbrev pub as_record : Value → Option Fields
as_record (obj fs) = some fs
as_record v = none

-- `asString`, the same helper in four files of the source
abbrev pub as_string : Value → Option String
as_string (str s) = some s
as_string v = none
