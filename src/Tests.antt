-- ===== src/Tests.antt =====
-- Concrete runs: a small hash, a printer of values, and the theorems at these.
mod Events
mod Chains
mod Trees
mod Checkpoints
mod Proofs
mod Inputs
mod Conformance
mod Privacy
mod Sources
mod Server
mod Cli
use open_audit_model.Common.{
  ℕ, zero, suc, ◌+◌, ◌%◌, String, ◌≡◌, refl, ap, true, false, some, List, [], ◌∷◌, arith, length,
  All, ◌+++◌,
}
use open_audit_model.Json.{
  Value, null, undef, bool, num, str, arr, obj, Items, nil, cons, Fields, end, field,
}
use open_audit_model.Integrity.Types.{digest_byte_length, IsByte, Hash}
use open_audit_model.Integrity.Findings.{Validator}
use open_audit_model.Integrity.Event.{Engine}
use open_audit_model.Integrity.Canonicalize.{}

-- A checksum, repeated.
abbrev sum : List ℕ → ℕ
sum [] = 0
sum (b ∷ bs) = b + sum bs

abbrev pub repeat : ℕ → ℕ → List ℕ
repeat zero b = []
repeat (suc n) b = b ∷ repeat n b

pub length-repeat : (n b : ℕ) → length (repeat n b) ≡ n
length-repeat zero b = refl
length-repeat (suc n) b = ap suc (length-repeat n b)

pub repeat-IsByte : (n b : ℕ) → All IsByte (repeat n (b % 256))
repeat-IsByte zero b = tt
repeat-IsByte (suc n) b = (omega arith, repeat-IsByte n b)

abbrev pub checksum : Hash
checksum = record {
  digest = λ a bs. repeat (digest_byte_length a) (sum bs % 256);
  length-digest = λ a bs. length-repeat (digest_byte_length a) (sum bs % 256);
  digest-IsByte = λ a bs. repeat-IsByte (digest_byte_length a) (sum bs);
}

abbrev mutual
  print : Value → String
  print null = "null"
  print undef = ""
  print (bool true) = "true"
  print (bool false) = "false"
  print (num n) = "0"
  print (str s) = "'" +++ s +++ "'"
  print (arr xs) = "[" +++ print_items xs +++ "]"
  print (obj fs) = "{" +++ print_fields fs +++ "}"

  print_items : Items → String
  print_items nil = ""
  print_items (cons v xs) = print v +++ "," +++ print_items xs

  print_fields : Fields → String
  print_fields end = ""
  print_fields (field k v fs) = k +++ ":" +++ print v +++ "," +++ print_fields fs

abbrev pub engine : Engine
engine = record {
  hash = checksum;
  package_canonicalize = λ v. some (print v);
  verify = λ p m k s. some true;
}

-- A validator that accepts every value.
abbrev pub accepts_all : Validator
accepts_all v = []
