-- ===== src/Json/Stringify.antt =====
-- `JSON.stringify` without spaces, on the values of `Json`.
use Prim.Native.Char.{Char, code}
use open_audit_model.Common.{
  ◌+◌, ◌/◌, ◌%◌, String, Bool, true, false, Option, none, some, ltb, ◌==◌, if◌then◌else◌, decimal,
  prepend, ◌+++◌,
}
use open_audit_model.Json.{
  Value, Items, Fields, Number, null, undef, bool, num, str, arr, obj, nil, cons, end, field, nat,
  neg, neg_zero, fraction, non_finite,
}
use open_audit_model.Integrity.Hex.{hex_char}

-- One character of a text between quotes.
abbrev pub escaped : Char → String → String
escaped c rest =
    if code c == 34
    then "\\\"" +++ rest
    else if code c == 92
    then "\\\\" +++ rest
    else if code c == 8
    then "\\b" +++ rest
    else if code c == 12
    then "\\f" +++ rest
    else if code c == 10
    then "\\n" +++ rest
    else if code c == 13
    then "\\r" +++ rest
    else if code c == 9
    then "\\t" +++ rest
    else if ltb (code c) 32
    then "\\u00" +++ prepend (hex_char (code c / 16)) (prepend (hex_char (code c % 16)) rest)
    else prepend c rest

unfoldable pub escape : String → String
escape String.[] = "\""
escape (String.◌∷◌ c s) = escaped c (escape s)

abbrev pub quote : String → String
quote s = "\"" +++ escape s

unfoldable pub print_number : Number → String
print_number (nat n) = decimal n
print_number (neg n) = "-" +++ decimal (n + 1)
print_number neg_zero = "0"
print_number (fraction s) = s
print_number (non_finite s) = "null"

-- A comma, where something stands before.
abbrev pub separated : Bool → String → String
separated true s = "," +++ s
separated false s = s

-- The text of a value; the text of `undefined` is what stands for it in an array. The elements of an
-- array and the members of an object follow with their commas, when one came before.
unfoldable mutual
  pub print_value : Value → String
  print_value null = "null"
  print_value undef = "null"
  print_value (bool true) = "true"
  print_value (bool false) = "false"
  print_value (num n) = print_number n
  print_value (str s) = quote s
  print_value (arr xs) = "[" +++ print_items false xs
  print_value (obj fs) = "{" +++ print_members false fs

  pub print_items : Bool → Items → String
  print_items before nil = "]"
  print_items before (cons v xs) = separated before (print_value v +++ print_items true xs)

  -- A member that is undefined is left out.
  pub print_members : Bool → Fields → String
  print_members before end = "}"
  print_members before (field k undef fs) = print_members before fs
  print_members before (field k v fs) =
      separated before (quote k +++ ":" +++ print_value v +++ print_members true fs)

-- `JSON.stringify(value)`
abbrev pub stringify : Value → Option String
stringify undef = none
stringify v = some (print_value v)
