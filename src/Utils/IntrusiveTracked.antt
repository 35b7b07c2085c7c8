-- ===== src/Utils/IntrusiveTracked.antt =====
-- source/utils/IntrusiveTracked.h: the count of references to an object, and who takes it back when
-- the last one is dropped. The smart pointers call `intrusive_ptr_add_ref` and
-- `intrusive_ptr_release`, once each for every pointer to the object.
use mathlib.Core.Path.{ap₂}
use api_pack.Base.{
  ℕ, zero, suc, ◌+◌, ◌-◌, ◌%◌, ◌^◌, ◌<◌, ◌≡◌, refl, ap, ◌∙◌, arith, Bool, false, List, [], ◌∷◌,
  ◌==◌, if◌then◌else◌,
}

-- The creator is known by whether there is one; the count is a `size_t`.
pub record IntrusiveTracked : Type 0 where
  pub reference : ℕ
  pub creator : Bool

unfoldable pub construct : IntrusiveTracked
construct = record { reference = 0; creator = false }

unfoldable pub set_creator : IntrusiveTracked → Bool → IntrusiveTracked
set_creator t c = record t { creator = c }

unfoldable pub intrusive_ptr_add_ref : IntrusiveTracked → IntrusiveTracked
intrusive_ptr_add_ref t = record t { reference = (t.reference + 1) % 2 ^ 64 }

-- What becomes of the object: it stays, its creator gets it back, or it is deleted.
pub data Outcome : Type 0 where
  kept given_back deleted : Outcome

-- `releaseObject(p)` is called with the object itself, which is not null.
unfoldable pub release_object : IntrusiveTracked → Outcome
release_object t = if t.creator then given_back else deleted

unfoldable pub intrusive_ptr_release : IntrusiveTracked → IntrusiveTracked × Outcome
unfolding release_object
intrusive_ptr_release t =
    let t' = record t { reference = (t.reference + 2 ^ 64 - 1) % 2 ^ 64 } in
    (t', if t'.reference == 0 then release_object t' else kept)

-- Several pointers are made.
unfoldable pub add_refs : ℕ → IntrusiveTracked → IntrusiveTracked
unfolding intrusive_ptr_add_ref
add_refs zero t = t
add_refs (suc n) t = add_refs n (intrusive_ptr_add_ref t)

-- Several pointers are dropped; the outcomes in their order.
unfoldable pub release_refs : ℕ → IntrusiveTracked → List Outcome
unfolding intrusive_ptr_release
release_refs zero t = []
release_refs (suc n) t = let (t', o) = intrusive_ptr_release t in o ∷ release_refs n t'

abbrev pub keeps : ℕ → Outcome → List Outcome
keeps zero o = o ∷ []
keeps (suc n) o = kept ∷ keeps n o

add_refs_lem :
    (n : ℕ) (t : IntrusiveTracked)
    → t.reference + n < 2 ^ 64
    → ((add_refs n t).reference ≡ t.reference + n) × ((add_refs n t).creator ≡ t.creator)
unfolding add_refs intrusive_ptr_add_ref
add_refs_lem zero t h = (omega arith, refl)
add_refs_lem (suc n) t h =
    let (r, c) = add_refs_lem n (intrusive_ptr_add_ref t) (omega arith) in (omega arith, c)

release_refs_lem :
    (n : ℕ) (t : IntrusiveTracked)
    → t.reference ≡ suc n
    → suc n < 2 ^ 64
    → release_refs (suc n) t ≡ keeps n (release_object t)
unfolding release_refs intrusive_ptr_release release_object
release_refs_lem zero t e h = ground arith
release_refs_lem (suc n) t e h = ap₂ ◌∷◌ (ground arith) (
    release_refs_lem n (record t { reference = (t.reference + 2 ^ 64 - 1) % 2 ^ 64 }) (omega arith)
      (omega arith))

-- If an object with no references gets `n + 1` pointers (fewer than 2^64), then dropping as many
-- keeps the object until the last drop, which gives it back to its creator, or deletes it if it has
-- none.
pub release_refs-add_refs :
    (n : ℕ) (t : IntrusiveTracked)
    → t.reference ≡ 0
    → suc n < 2 ^ 64
    → release_refs (suc n) (add_refs (suc n) t)
      ≡ keeps n (if t.creator then given_back else deleted)
unfolding release_object
release_refs-add_refs n t e h =
    let (r, c) = add_refs_lem (suc n) t (omega arith) in
    release_refs_lem n (add_refs (suc n) t) (omega arith) h
    ∙ ap (λ b. keeps n (if b then given_back else deleted)) c
