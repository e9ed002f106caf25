-- ===== src/Prelude/Texts.antt =====
-- Texts are native strings. The program compares them and tests them for emptiness.
use Prim.Native.String.{String}
use mathlib.Core.Logic.{ite, dite}
use mathlib.Core.Bool.{Bool, true, false, Bool-discrete}
use mathlib.Core.Option.{Option, none, some}
use text.Mathlib.Text
use text.Mathlib.TextEquality.{eq_iff}

-- Shut in proofs, where a split on it gives the equation or its negation.
unfoldable pub string_dec : Discrete String
string_dec s t =
    dite (Bool-discrete (Text.◌==◌ s t) true) (λ equal. yes ((eq_iff s t).0 equal))
      (λ differ. no (λ p. differ ((eq_iff s t).1 p)))

-- Python's `==` on texts.
abbrev pub same : String → String → Bool
same s t = ite (string_dec s t) true false

-- Python's truth test of a text: only the empty text is false.
abbrev pub is_empty : String → Bool
is_empty s = same s ""

-- Python's truth test of a text that may be `None`.
abbrev pub is_blank : Option String → Bool
is_blank none = true
is_blank (some s) = is_empty s
