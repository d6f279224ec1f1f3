-- ===== src/Prelude/Texts.antt =====
-- Texts by their characters: concatenation, prefixes, emptiness.
use Prim.Native.Char.{code}
use Prim.Native.String.{String}
use mathlib.Core.Path.{◌≡◌, refl, ap, sym, ◌∙◌}
use mathlib.Core.Bool.{Bool, true, false}
use mathlib.Core.Logic.{inl, inr}
use mathlib.Core.Option.{Option, none, some}
use native.Mathlib.Omega.{arith}
use text.Mathlib.TextEquality.{Char-path}
use revenue_degradation_reco.Prelude.Tests.{◌==◌, if◌then◌else◌, Bool-cases}

abbrev pub concat : String → String → String
concat String.[] t = t
concat (String.◌∷◌ c s) t = String.◌∷◌ c (concat s t)

-- What follows the prefix, if the text has it.
abbrev pub strip_prefix : String → String → Option String
strip_prefix String.[] t = some t
strip_prefix (String.◌∷◌ c p) String.[] = none
strip_prefix (String.◌∷◌ c p) (String.◌∷◌ d t) =
    let rest = strip_prefix p t in if code c == code d then rest else none

abbrev pub is_empty : String → Bool
is_empty String.[] = true
is_empty (String.◌∷◌ c s) = false

pub strip_prefix-concat : (p t : String) → strip_prefix p (concat p t) ≡ some t
strip_prefix-concat String.[] t = refl
strip_prefix-concat (String.◌∷◌ c p) t = ground (arith, strip_prefix-concat p t)

pub strip_prefix-eq_some : (p t r : String) → strip_prefix p t ≡ some r → t ≡ concat p r
strip_prefix-eq_some String.[] t r e = cc
strip_prefix-eq_some (String.◌∷◌ c p) String.[] r e = cc
strip_prefix-eq_some (String.◌∷◌ c p) (String.◌∷◌ d t) r e = elim (Bool-cases (code c == code d)) [
  | inl same ↦
      let here : c ≡ d = Char-path c d (ground arith) in
      let later = strip_prefix-eq_some p t r (rw same at e) in cc
  | inr other ↦ absurd (ground arith)
]

pub concat_injective : (p t u : String) → concat p t ≡ concat p u → t ≡ u
concat_injective p t u e =
    let s = sym (strip_prefix-concat p t) ∙ ap (strip_prefix p) e ∙ strip_prefix-concat p u in cc
