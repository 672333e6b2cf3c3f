-- ===== src/Base/Strings.antt =====
-- Lists of texts as Python's lists and sets of strings.
use Prim.Native.String.{String}
use mathlib.Core.Bool.{Bool, true, false, ◌&&◌, ◌||◌, false≢true}
use mathlib.Core.Logic.{inl, inr}
use text.Mathlib.TextEquality.{eq_iff}
use project_risk_system.Base.Tests.{Bool-cases}
use mathlib.Core.Path.{◌≡◌}
use mathlib.Core.List.{List, [], ◌∷◌}
use native.Mathlib.Omega.{arith}
use text.Mathlib.Text.{◌==◌}

-- `s in items`
abbrev pub member : String → List String → Bool
member s [] = false
member s (x ∷ xs) = x == s || member s xs

-- `items >= required` for sets: every required one is there.
abbrev pub includes : List String → List String → Bool
includes items [] = true
includes items (r ∷ rs) = member r items && includes items rs

-- `items & others` is not empty
abbrev pub meets : List String → List String → Bool
meets items [] = false
meets items (o ∷ os) = member o items || meets items os

pub includes-member :
    (s : String) (items required : List String)
    → includes items required ≡ true
    → member s required ≡ true
    → member s items ≡ true
includes-member s items [] h m = absurd (false≢true m)
includes-member s items (r ∷ rs) h m = elim (Bool-cases (r == s)) [
  | inl e ↦
      let r≡s : r ≡ s = (eq_iff r s).0 e in
      let held : member r items ≡ true = ground arith in rw r≡s at held
  | inr e ↦ includes-member s items rs (ground arith) (ground arith)
]

pub meets-not-member :
    (s : String) (items others : List String)
    → meets items others ≡ false
    → member s others ≡ true
    → member s items ≡ false
meets-not-member s items [] h m = absurd (false≢true m)
meets-not-member s items (o ∷ os) h m = elim (Bool-cases (o == s)) [
  | inl e ↦
      let o≡s : o ≡ s = (eq_iff o s).0 e in
      let free : member o items ≡ false = ground arith in rw o≡s at free
  | inr e ↦ meets-not-member s items os (ground arith) (ground arith)
]
