-- ===== src/Text/Split.antt =====
-- `str::split_once`, `str::split` and `str::trim` of one separator.
use pgnats.Common.{
  ℕ, ◌≡◌, refl, sym, ap, ◌∙◌, inl, inr, Bool-cases, Bool, ◌||◌, ◌&&◌, leb, Option, none, some, List,
  [], ◌∷◌, ◌++◌, ◌==◌, if◌then◌else◌, ◌≢◌, arith, ==_iff,
}
use mathlib.Core.List.{reverse}
use pgnats.Text.{Text}

abbrev map_front : ℕ → Option (Text × Text) → Option (Text × Text)
map_front c none = none
map_front c (some (a, b)) = some (c ∷ a, b)

-- `split_once(sep)`: around the first separator.
unfoldable pub split_once : ℕ → Text → Option (Text × Text)
split_once sep [] = none
split_once sep (c ∷ cs) = if c == sep then some ([], cs) else map_front c (split_once sep cs)

abbrev pub onto_first : ℕ → List Text → List Text
onto_first c [] = (c ∷ []) ∷ []
onto_first c (t ∷ ts) = (c ∷ t) ∷ ts

-- `split(sep)`: the pieces between the separators, empty ones included.
unfoldable pub split : ℕ → Text → List Text
split sep [] = [] ∷ []
split sep (c ∷ cs) = if c == sep then [] ∷ split sep cs else onto_first c (split sep cs)

-- The pieces with the separator between them.
unfoldable pub join : ℕ → List Text → Text
join sep [] = []
join sep (t ∷ []) = t
join sep (t ∷ u ∷ ts) = t ++ sep ∷ join sep (u ∷ ts)

-- ASCII white space and the other code points of `char::is_whitespace`
unfoldable pub is_whitespace : ℕ → Bool
is_whitespace c =
    between 9 13
    || c == 32
    || c == 133
    || c == 160
    || c == 5760
    || between 8192 8202
    || c == 8232
    || c == 8233
    || c == 8239
    || c == 8287
    || c == 12288
  where
    between : ℕ → ℕ → Bool
    between a b = leb a c && leb c b

unfoldable pub trim_start : Text → Text
trim_start [] = []
trim_start (c ∷ cs) = if is_whitespace c then trim_start cs else c ∷ cs

unfoldable pub trim : Text → Text
trim t = reverse (trim_start (reverse (trim_start t)))

abbrev pub Free : ℕ → Text → Type 0
Free sep [] = Unit {0}
Free sep (c ∷ cs) = (c ≢ sep) × Free sep cs

-- A key without the separator is cut off at the first one.
pub split_once_lem :
    (sep : ℕ) (key value : Text)
    → Free sep key
    → split_once sep (key ++ sep ∷ value) ≡ some (key, value)
unfolding split_once
split_once_lem sep [] value f = ground (arith, ==_iff sep sep)
split_once_lem sep (c ∷ key) value f = ground (arith, split_once_lem sep key value f.1)

split_nonempty : (sep : ℕ) (t : Text) → (p : Text) × (ps : List Text) × (split sep t ≡ p ∷ ps)
unfolding split
split_nonempty sep [] = ([], [], refl)
split_nonempty sep (c ∷ cs) =
    let (p, ps, e) = split_nonempty sep cs in
    elim (Bool-cases (c == sep)) [
      | inl hit ↦ ([], split sep cs, rw hit)
      | inr miss ↦ (c ∷ p, ps, rw (miss, e))
    ]

join-onto :
    (sep c : ℕ) (p : Text) (ps : List Text) → join sep ((c ∷ p) ∷ ps) ≡ c ∷ join sep (p ∷ ps)
unfolding join
join-onto sep c p [] = refl
join-onto sep c p (u ∷ ps) = refl

-- No character is lost by splitting.
pub join-split : (sep : ℕ) (t : Text) → join sep (split sep t) ≡ t
unfolding join split
join-split sep [] = refl
join-split sep (c ∷ cs) =
    let (p, ps, e) = split_nonempty sep cs in
    let rest : join sep (p ∷ ps) ≡ cs = ap (join sep) (sym e) ∙ join-split sep cs in
    elim (Bool-cases (c == sep)) [
      | inl hit ↦ rw (hit, e) (ap (◌∷◌ sep) rest ∙ ap (λ k. k ∷ cs) (sym ((==_iff c sep).0 hit)))
      | inr miss ↦ rw (miss, e) (join-onto sep c p ps ∙ ap (◌∷◌ c) rest)
    ]

abbrev pub AllFree : ℕ → List Text → Type 0
AllFree sep [] = Unit {0}
AllFree sep (t ∷ ts) = Free sep t × AllFree sep ts

split-last : (sep : ℕ) (t : Text) → Free sep t → split sep t ≡ t ∷ []
unfolding split
split-last sep [] f = refl
split-last sep (c ∷ cs) f = ground (arith, split-last sep cs f.1)

split-front :
    (sep : ℕ) (t rest : Text) → Free sep t → split sep (t ++ sep ∷ rest) ≡ t ∷ split sep rest
unfolding split
split-front sep [] rest f = ground (arith, ==_iff sep sep)
split-front sep (c ∷ cs) rest f = ground (arith, split-front sep cs rest f.1)

-- Pieces without the separator are split apart again.
pub split-join :
    (sep : ℕ) (t : Text) (ts : List Text)
    → AllFree sep (t ∷ ts)
    → split sep (join sep (t ∷ ts)) ≡ t ∷ ts
unfolding join
split-join sep t [] f = split-last sep t f.0
split-join sep t (u ∷ ts) f =
    split-front sep t (join sep (u ∷ ts)) f.0 ∙ ap (◌∷◌ t) (split-join sep u ts f.1)
