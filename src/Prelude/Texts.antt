-- ===== src/Prelude/Texts.antt =====
-- Go's `strings.SplitN` and `strings.Split` for a separator that is not empty.
use Prim.Native.Nat.{ℕ, zero, suc, ◌+◌}
use Prim.Native.String.{String, len, find, slice}
use mathlib.Core.List.{List, [], ◌∷◌}
use agentcube.Prelude.Numbers.{ltb}
use agentcube.Prelude.Equality.{if◌then◌else◌}

-- At most `n` parts, the last of which is the rest.
unfoldable pub split_n : (n : ℕ) → String → String → List String
split_n zero s separator = []
split_n (suc zero) s separator = s ∷ []
split_n (suc (suc n)) s separator =
    let i = find s separator in
    let rest = split_n (suc n) (slice s (i + len separator) (len s)) separator in
    if ltb (len s) i then s ∷ [] else slice s 0 i ∷ rest

-- A text has fewer separators than bytes and one.
unfoldable pub split : String → String → List String
split s separator = split_n (suc (len s)) s separator
