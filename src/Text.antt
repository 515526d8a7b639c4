-- ===== src/Text.antt =====
-- Python's `str` as the list of its code points, and the few methods the program calls on one.
use Prim.Native.Char.{code}
use Prim.Native.String.{String}
use convoscore.Prelude.{
  ℕ, ◌≡◌, ◌↔◌, refl, Bool, true, false, ◌&&◌, List, [], ◌∷◌, ◌++◌, arith, ◌==◌, if◌then◌else◌,
}

abbrev pub Text : Type 0
Text = List ℕ

-- A literal.
abbrev pub text : String → Text
text String.[] = []
text (String.◌∷◌ c s) = code c ∷ text s

infix 50 ◌is◌
unfoldable pub ◌is◌ : Text → Text → Bool
[] is [] = true
(c ∷ s) is (d ∷ t) = (c == d) && (s is t)
_ is _ = false

-- `t.startswith(s)`, the prefix first.
unfoldable pub starts_with : Text → Text → Bool
starts_with [] t = true
starts_with (c ∷ s) [] = false
starts_with (c ∷ s) (d ∷ t) = (c == d) && starts_with s t

-- `sub in t`.
unfoldable pub is_in : Text → Text → Bool
is_in sub [] = starts_with sub []
is_in sub (c ∷ t) = if starts_with sub (c ∷ t) then true else is_in sub t

pub is_iff : (s t : Text) → ((s is t) ≡ true) ↔ (s ≡ t)
unfolding ◌is◌
is_iff [] [] = ground arith
is_iff [] (d ∷ t) = ground arith
is_iff (c ∷ s) [] = ground arith
is_iff (c ∷ s) (d ∷ t) = ground (arith, is_iff s t)

pub starts_with-append : (s t : Text) → starts_with s (s ++ t) ≡ true
unfolding starts_with
starts_with-append [] t = refl
starts_with-append (c ∷ s) t = ground (arith, starts_with-append s t)
