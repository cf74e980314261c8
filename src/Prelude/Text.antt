-- ===== src/Prelude/Text.antt =====
-- Texts as the lists of their characters.
use Prim.Native.Char.{code}
use Prim.Native.String.{String}
use audio_router.Prelude.{
  ℕ, ◌-◌, Bool, true, false, ◌&&◌, List, [], ◌∷◌, ◌++◌, ◌==◌, length, take, replicate,
}

-- The characters of a literal.
abbrev pub chars : String → List ℕ
chars String.[] = []
chars (String.◌∷◌ c rest) = code c ∷ chars rest

-- `operator==` of strings.
unfoldable pub same_text : List ℕ → List ℕ → Bool
same_text [] [] = true
same_text [] (_ ∷ _) = false
same_text (_ ∷ _) [] = false
same_text (a ∷ s) (b ∷ t) = a == b && same_text s t

-- `s.rfind(prefix, 0) == 0`
unfoldable pub starts_with : List ℕ → List ℕ → Bool
starts_with s [] = true
starts_with [] (_ ∷ _) = false
starts_with (a ∷ s) (b ∷ prefix) = a == b && starts_with s prefix

-- A field of `n` zero bytes behind `std::strncpy(field, text, n - 1)`.
abbrev pub text_field : ℕ → List ℕ → List ℕ
text_field n text = let copied = take (n - 1) text in copied ++ replicate (n - length copied) 0
