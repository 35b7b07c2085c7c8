-- ===== src/Datastore/Query/IdList.antt =====
-- The two loops of DatastoreIterator.cpp that print a list of ids, against a reader of such lists.
pub mod Separated
use mathlib.Core.List.{
  append_assoc, append_cancel_left, append_cancel_right, append-nil, cons-eq-cons,
}
use mathlib.Core.Path.{ap₂}
use api_pack.Base.{
  ◌⊎◌, inl, inr, ℕ, ◌+◌, ◌≡◌, ◌≢◌, ◌≤◌, refl, sym, ap, ◌∙◌, arith, true, false, List, [], ◌∷◌, ◌++◌,
  map, All, ◌==◌, if◌then◌else◌,
}
use api_pack.Base.Text.{Text, Decimal, codes, IsDigit}
use api_pack.Datastore.Query.{generate_string_id_list, generate_long_id_list}
use Separated.{split-join, HasNoComma, join_injective}
pub use Separated.{split, join}

All-map {ℓ κ μ} :
    {A : Type ℓ} {B : Type κ} (P : B → Type μ) (f : A → B) (xs : List A)
    → ((a : A) → P (f a))
    → All P (map f xs)
All-map P f [] h = tt
All-map P f (x ∷ xs) h = (h x, All-map P f xs h)

All-append {ℓ κ} :
    {A : Type ℓ} (P : A → Type κ) (xs ys : List A) → All P xs → All P ys → All P (xs ++ ys)
All-append P [] ys h k = k
All-append P (x ∷ xs) ys h k = (h.0, All-append P xs ys h.1 k)

map_injective {ℓ κ} :
    {A : Type ℓ} {B : Type κ} (f : A → B)
    → ((a b : A) → f a ≡ f b → a ≡ b)
    → (xs ys : List A) → map f xs ≡ map f ys
    → xs ≡ ys
map_injective f h [] [] e = refl
map_injective f h [] (y ∷ ys) e = cc
map_injective f h (x ∷ xs) [] e = cc
map_injective f h (x ∷ xs) (y ∷ ys) e =
    ap₂ ◌∷◌ (h x y (cons-eq-cons.0 e).0) (map_injective f h xs ys (cons-eq-cons.0 e).1)

digits_no_comma : (t : Text) → All IsDigit t → HasNoComma t
digits_no_comma [] h = tt
digits_no_comma (c ∷ t) h = (omega arith, digits_no_comma t h.1)

module _ (p : Decimal) where
  -- An id as the list for `catapult.general` holds it.
  abbrev pub quoted : ℕ → Text
  quoted id = codes "'" ++ (p.print id ++ codes "'")

  -- The loop appends the ids, separated by commas.
  pub generate_long-join :
      (ids : List ℕ) (string : Text)
      → generate_long_id_list p ids string ≡ string ++ join (map p.print ids)
  unfolding generate_long_id_list join
  generate_long-join [] string = sym (append-nil string)
  generate_long-join (id ∷ []) string = refl
  generate_long-join (id ∷ next ∷ ids) string =
      generate_long-join (next ∷ ids) (string ++ (p.print id ++ codes ",")) ∙ simp append_assoc

  pub generate_string-join :
      (ids : List ℕ) (string : Text)
      → generate_string_id_list p ids string ≡ string ++ join (map quoted ids)
  unfolding generate_string_id_list join
  generate_string-join [] string = sym (append-nil string)
  generate_string-join (id ∷ []) string = refl
  generate_string-join (id ∷ next ∷ ids) string =
      generate_string-join (next ∷ ids) (string ++ (codes "'" ++ (p.print id ++ codes "',")))
      ∙ simp append_assoc

  print_no_comma : (n : ℕ) → HasNoComma (p.print n)
  print_no_comma n = digits_no_comma (p.print n) (p.print-IsDigit n)

  quoted_no_comma : (n : ℕ) → HasNoComma (quoted n)
  quoted_no_comma n = (omega arith, All-append _ (p.print n) _ (print_no_comma n) (omega arith))

  quoted_injective : (m n : ℕ) → quoted m ≡ quoted n → m ≡ n
  quoted_injective m n e = p.print_inj m n (append_cancel_right _ _ _ (cons-eq-cons.0 e).1)

  -- For a list of at least one id, both loops keep the buffer and append a text that reads back,
  -- split at its commas, as the printed ids in their order: plain for the long list, each between
  -- quotes for the string list.
  pub generate_id_lists_roundtrip :
      (id : ℕ) (ids : List ℕ) (string : Text)
      → ((text : Text) × (generate_long_id_list p (id ∷ ids) string ≡ string ++ text)
          × (split text ≡ map p.print (id ∷ ids)))
        × ((text : Text) × (generate_string_id_list p (id ∷ ids) string ≡ string ++ text)
            × (split text ≡ map quoted (id ∷ ids)))
  generate_id_lists_roundtrip id ids string = (
    (
      join (map p.print (id ∷ ids)),
      generate_long-join (id ∷ ids) string,
      split-join _ _ (All-map HasNoComma p.print (id ∷ ids) print_no_comma),
    ),
    (
      join (map quoted (id ∷ ids)),
      generate_string-join (id ∷ ids) string,
      split-join _ _ (All-map HasNoComma quoted (id ∷ ids) quoted_no_comma),
    ),
  )

  -- Two lists of ids that either loop prints alike, behind one buffer, are the same list.
  pub generate_id_lists_injective :
      (xs ys : List ℕ) (string : Text)
      → (generate_long_id_list p xs string ≡ generate_long_id_list p ys string)
        ⊎ (generate_string_id_list p xs string ≡ generate_string_id_list p ys string)
      → xs ≡ ys
  generate_id_lists_injective xs ys string (inl e) = map_injective p.print p.print_inj xs ys (
      join_injective _ _ (All-map HasNoComma p.print xs print_no_comma)
        (All-map HasNoComma p.print ys print_no_comma) (All-map _ p.print xs p.print-ne-nil)
        (All-map _ p.print ys p.print-ne-nil)
        (append_cancel_left string _ _
          (sym (generate_long-join xs string) ∙ e ∙ generate_long-join ys string)))
  generate_id_lists_injective xs ys string (inr e) = map_injective quoted quoted_injective xs ys (
      join_injective _ _ (All-map HasNoComma quoted xs quoted_no_comma)
        (All-map HasNoComma quoted ys quoted_no_comma) (All-map _ quoted xs (λ n e'. cc))
        (All-map _ quoted ys (λ n e'. cc))
        (append_cancel_left string _ _
          (sym (generate_string-join xs string) ∙ e ∙ generate_string-join ys string)))
