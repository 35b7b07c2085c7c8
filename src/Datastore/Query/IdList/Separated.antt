-- ===== src/Datastore/Query/IdList/Separated.antt =====
-- Texts separated by commas, and the reader that takes them apart.
use api_pack.Base.{ℕ, ◌≡◌, ◌≢◌, refl, ap, ◌∙◌, arith, List, [], ◌∷◌, ◌++◌, All, ◌==◌, if◌then◌else◌}
use api_pack.Base.Text.{Text}

-- A comma is 44.
unfoldable pub join : List Text → Text
join [] = []
join (t ∷ []) = t
join (t ∷ u ∷ ts) = t ++ (44 ∷ join (u ∷ ts))

-- A character in front of the first of the parts.
push_front : ℕ → List Text → List Text
push_front c [] = (c ∷ []) ∷ []
push_front c (t ∷ ts) = (c ∷ t) ∷ ts

unfoldable pub split : Text → List Text
unfolding push_front
split [] = [] ∷ []
split (c ∷ cs) = let rest = split cs in if c == 44 then [] ∷ rest else push_front c rest

abbrev pub HasNoComma : Text → Type 0
HasNoComma = All (λ c. c ≢ 44)

split_word : (t : Text) → HasNoComma t → split t ≡ t ∷ []
unfolding split
split_word [] h = refl
split_word (c ∷ t) h = ground (arith, split_word t h.1)

split_comma : (t u : Text) → HasNoComma t → split (t ++ (44 ∷ u)) ≡ t ∷ split u
unfolding split
split_comma [] u h = refl
split_comma (c ∷ t) u h = ground (arith, split_comma t u h.1)

-- The reader gives back the parts of a text that is not made of none.
pub split-join :
    (t : Text) (ts : List Text) → All HasNoComma (t ∷ ts) → split (join (t ∷ ts)) ≡ t ∷ ts
unfolding join
split-join t [] h = split_word t h.0
split-join t (u ∷ ts) h = split_comma t (join (u ∷ ts)) h.0 ∙ ap (◌∷◌ t) (split-join u ts h.1)

-- Such a text determines its parts.
pub join_injective :
    (ts us : List Text)
    → All HasNoComma ts
    → All HasNoComma us
    → All (λ t. t ≢ []) ts
    → All (λ t. t ≢ []) us
    → join ts ≡ join us
    → ts ≡ us
unfolding join split
join_injective [] [] h k n m e = refl
join_injective [] (u ∷ us) h k n m e = absurd (m.0 (cc (split-join u us k)))
join_injective (t ∷ ts) [] h k n m e = absurd (n.0 (cc (split-join t ts h)))
join_injective (t ∷ ts) (u ∷ us) h k n m e = cc (split-join t ts h, split-join u us k, ap split e)
