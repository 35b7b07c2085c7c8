-- ===== src/Datastore/Libpq/Refusing.antt =====
-- A server that rejects every query: an instance of `Libpq` for the concrete inputs. It knows a
-- command by its first letter.
use api_pack.Base.{◌≡◌, refl, true, Option, none, some, [], ◌∷◌, ◌==◌, if◌then◌else◌}
use api_pack.Base.Text.{Text, codes}
use api_pack.Datastore.Libpq.{Libpq, PgResult, command_ok, failed}
use api_pack.Datastore.Libpq.Rejection.{Rejection}

pub data Phase : Type 0 where
  idle begun aborted : Phase

abbrev pub refusal : PgResult
refusal = record { status = failed; rows = [] }

abbrev pub agreed : PgResult
agreed = record { status = command_ok; rows = [] }

-- B begins a transaction, E ends it, D aborts it, and all else fails.
abbrev pub refuse : Phase → Text → Phase × Option PgResult
refuse c [] = (c, none)
refuse c (letter ∷ _) =
    if letter == 66
    then (begun, some agreed)
    else (if letter == 69
        then (idle, some agreed)
        else (if letter == 68 then (aborted, some refusal) else (c, some refusal)))

abbrev pub refusing : Libpq
refusing = record {
  Conn = Phase;
  connectdb = λ address. some idle;
  is_ok = λ c. true;
  error_message = λ c. codes "refused";
  exec = refuse;
}

unfoldable pub refusing_rejection :
    (query fetched closed : Text) → Rejection refusing (68 ∷ query) (70 ∷ fetched) (67 ∷ closed)
refusing_rejection query fetched closed = record {
  Idle = λ c. c ≡ idle;
  Begun = λ c. c ≡ begun;
  Aborted = λ c. c ≡ aborted;
  begin_ok = λ c e. (agreed, refl, refl, refl);
  query_fails = λ c e. (refusal, refl, refl, refl);
  close_fails = λ c e. (refusal, refl, refl, e);
  end_ok = λ c e. (agreed, refl, refl, refl);
  fetch_fails = λ c e. (refusal, refl, refl, e);
}
