-- ===== src/Datastore/ConnectionInfo/Rotation.antt =====
-- The turns of `getNextUri` of DatastoreConnectionInfo.cpp.
use api_pack.Base.{
  ℕ, zero, suc, ◌+◌, ◌%◌, ◌^◌, ◌<◌, ◌≡◌, ◌≢◌, sym, ap, ◌∙◌, arith, Option, none, List, [], ◌∷◌,
  if_intro, length, get_elem?, ◌==◌, if◌then◌else◌,
}
use native.Mathlib.Nat.{suc-mod, mod_self, mod-eq_of_lt, mod-lt}
use api_pack.Base.Text.{Text}
use api_pack.Datastore.ConnectionInfo.{
  DatastoreConnectionInfo, get_next_uri, next_of, advance, uri_at,
}

-- The information after some calls.
unfoldable pub after_calls : ℕ → DatastoreConnectionInfo → DatastoreConnectionInfo
after_calls zero i = i
after_calls (suc n) i = (get_next_uri (after_calls n i)).0

in_range : (uris : List Text) (k : ℕ) → k < length uris → get_elem? uris k ≢ none
in_range [] k l = absurd (omega (arith, l))
in_range (uri ∷ uris) zero l = λ e. cc
in_range (uri ∷ uris) (suc k) l = in_range uris k (omega (arith, l))

module _ (size : ℕ) (uri : Text) (uris : List Text) where
  -- The information that will go on from address `k`.
  abbrev pub at_uri : ℕ → DatastoreConnectionInfo
  at_uri k = record { default_fetch_size = size; connection_strings = uri ∷ uris; last_uri = k }

  -- The address after `k`, in turn.
  abbrev pub following : ℕ → ℕ
  following k = if suc k == length (uri ∷ uris) then 0 else suc k

  next_uri_lem :
      (k : ℕ)
      → k < length (uri ∷ uris)
      → length (uri ∷ uris) < 2 ^ 64
      → get_next_uri (at_uri k) ≡ (at_uri (following k), get_elem? (uri ∷ uris) (following k))
  unfolding get_next_uri next_of advance uri_at
  next_uri_lem k l word =
      ap (λ n. (at_uri n, get_elem? (uri ∷ uris) n))
        {x = if (k + 1) % 2 ^ 64 == length (uri ∷ uris) then 0 else (k + 1) % 2 ^ 64}
        {y = following k} (ground arith)

  -- To follow is to add one, modulo the number of the addresses.
  following-mod : (n : ℕ) → following (n % length (uri ∷ uris)) ≡ suc n % length (uri ∷ uris)
  following-mod n =
      if_intro (λ k. k ≡ suc n % length (uri ∷ uris))
        (suc (n % length (uri ∷ uris)) == length (uri ∷ uris)) 0 (suc (n % length (uri ∷ uris)))
        (λ t. sym (
          suc-mod n (length (uri ∷ uris))
          ∙ ap (λ k. k % length (uri ∷ uris)) {y = length (uri ∷ uris)} (ground (arith, t))
          ∙ mod_self (length (uri ∷ uris))))
        (λ f. sym (
          suc-mod n (length (uri ∷ uris))
          ∙ mod-eq_of_lt (ground (arith, f, mod-lt n {m = length (uri ∷ uris)} (omega arith)))))

  after_calls_lem :
      (n : ℕ)
      → length (uri ∷ uris) < 2 ^ 64
      → after_calls n (at_uri 0) ≡ at_uri (n % length (uri ∷ uris))
  unfolding after_calls
  after_calls_lem zero word = ap at_uri (sym (mod-eq_of_lt (omega arith)))
  after_calls_lem (suc n) word =
      ap (λ i. (get_next_uri i).0) (after_calls_lem n word)
      ∙ ap (λ (x : DatastoreConnectionInfo × Option Text). x.0)
          (next_uri_lem (n % length (uri ∷ uris)) (mod-lt n (omega arith)) word)
      ∙ ap at_uri (following-mod n)

  -- The addresses come in turn, for ever: with at least one address, the call that follows `n`
  -- others returns the address at `n + 1`, modulo their number. So the first call returns address 1
  -- if there is one, and no call reads out of range.
  pub get_next_uri-after_calls :
      (n : ℕ)
      → length (uri ∷ uris) < 2 ^ 64
      → ((get_next_uri (after_calls n (at_uri 0))).1
          ≡ get_elem? (uri ∷ uris) (suc n % length (uri ∷ uris)))
        × ((get_next_uri (after_calls n (at_uri 0))).1 ≢ none)
  get_next_uri-after_calls n word =
      let turn =
        ap (λ i. (get_next_uri i).1) (after_calls_lem n word)
        ∙ ap (λ (x : DatastoreConnectionInfo × Option Text). x.1)
            (next_uri_lem (n % length (uri ∷ uris)) (mod-lt n (omega arith)) word)
        ∙ ap (get_elem? (uri ∷ uris)) (following-mod n) in
      (
        turn,
        λ missing.
            in_range (uri ∷ uris) (suc n % length (uri ∷ uris)) (mod-lt (suc n) (omega arith))
              (sym turn ∙ missing),
      )
