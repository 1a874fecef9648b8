-- ===== src/Text.antt =====
-- Texts as lists of code points, and what the program uses of Rust's `str`.
pub mod Numbers
pub mod Split
pub mod Utf8
mod Tests
use Prim.Native.Char.{code}
use Prim.Native.String.{String}
use pgnats.Common.{ℕ, List, [], ◌∷◌}

abbrev pub Text : Type 0
Text = List ℕ

abbrev pub text : String → Text
text String.[] = []
text (String.◌∷◌ c s) = code c ∷ text s
