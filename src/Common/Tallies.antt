-- ===== src/Common/Tallies.antt =====
-- `Map` from texts to counts.
use Prim.Native.Nat.{ℕ, ◌+◌}
use Prim.Native.String.{String}
use mathlib.Core.List.{List, [], ◌∷◌}
use open_audit_model.Common.Tests.{if◌then◌else◌}
use open_audit_model.Common.Text.{◌===◌}

-- A `Map` from texts to counts.
abbrev pub Counts : Type 0
Counts = List (String × ℕ)

-- `counts.get(key) ?? 0`
abbrev pub count_of : Counts → String → ℕ
count_of [] key = 0
count_of ((k, n) ∷ counts) key = if k === key then n else count_of counts key

-- `counts.set(key, (counts.get(key) ?? 0) + 1)`
abbrev pub count_up : String → Counts → Counts
count_up key [] = (key, 1) ∷ []
count_up key ((k, n) ∷ counts) =
    let rest = count_up key counts in if k === key then (k, n + 1) ∷ counts else (k, n) ∷ rest
