-- ===== src/Datastore/Libpq/Replay.antt =====
-- A server that keeps PostgreSQL's promises of `Cursor` at a fixed list of rows, fetched in twos: an
-- instance of `Libpq` for the concrete inputs. It knows a command by its first letter.
use api_pack.Base.{
  ℕ, ◌≡◌, refl, sym, ap, ◌∙◌, arith, true, Option, none, some, List, [], ◌∷◌, take, drop, ◌==◌,
  if◌then◌else◌,
}
use api_pack.Base.Text.{Text, codes}
use api_pack.Base.Printing.{decimal}
use api_pack.Datastore.Topics.{Topic}
use api_pack.Datastore.Query.{fetch_command, close_command}
use api_pack.Datastore.Libpq.{Libpq, PgResult, command_ok, tuples_ok}
use api_pack.Datastore.Libpq.Cursor.{Cursor}
use api_pack.Datastore.Libpq.Transactions.{Transactions}

pub record Server : Type 0 where
  pub rows : List (Option Text)

abbrev pub done : PgResult
done = record { status = command_ok; rows = [] }

-- DECLARE puts the cursor before the first of `rows`.
abbrev pub reply : List (Option Text) → Server → Text → Server × Option PgResult
reply rows c [] = (c, none)
reply rows c (letter ∷ _) =
    if letter == 70
    then (
      record { rows = drop 2 c.rows },
      some (record { status = tuples_ok; rows = take 2 c.rows }),
    )
    else (if letter == 68 then (record { rows = rows }, some done) else (c, some done))

-- An empty address has no server.
abbrev pub connect_to : List (Option Text) → Text → Option Server
connect_to rows [] = none
connect_to rows (_ ∷ _) = some (record { rows = rows })

abbrev pub replay : List (Option Text) → Libpq
replay rows = record {
  Conn = Server;
  connectdb = connect_to rows;
  is_ok = λ c. true;
  error_message = λ c. codes "refused";
  exec = reply rows;
}

unfoldable pub replay_cursor :
    (rows : List (Option Text)) (topic : Topic) (thread : Text)
    → Cursor
        (replay rows)
        (fetch_command decimal 2 topic thread)
        (close_command decimal topic thread)
        2
unfolding fetch_command close_command
replay_cursor rows topic thread = record {
  At = λ c left. c.rows ≡ left;
  Closed = λ c. Unit;
  Finished = λ c. Unit;
  fetch_rows = λ c left e.
      (ap (λ l. some (record { status = tuples_ok; rows = take 2 l })) e, ap (drop 2) e);
  close_ok = λ c left e. (done, refl, refl, tt);
  end_ok = λ c e. (done, refl, refl, tt);
}

abbrev pub first_letter : Text → ℕ
first_letter [] = 0
first_letter (letter ∷ _) = letter

pub answers_declare :
    (rows : List (Option Text)) (c : Server) (query : Text)
    → first_letter query ≡ 68
    → reply rows c query ≡ (record { rows = rows }, some done)
answers_declare rows c [] e = absurd (omega (arith, e))
answers_declare rows c (letter ∷ query) e = rw e refl

-- The server is outside a transaction whenever it is asked, and answers what begins with a D.
unfoldable pub replay_transactions :
    (rows : List (Option Text)) (thread : Text) → Transactions (replay rows) decimal 2 thread
unfolding replay_cursor
replay_transactions rows thread = record {
  Idle = λ c. Unit;
  Begun = λ c. Unit;
  Selects = λ topic query selected. (first_letter query ≡ 68) × (selected ≡ rows);
  cursor = λ topic. replay_cursor rows topic thread;
  idle_ok = λ c e. refl;
  begin_ok = λ c e. (done, refl, refl, tt);
  query_ok = λ c topic query selected e (declares, same). (
    done,
    ap (λ x. x.1) (answers_declare rows c query declares),
    refl,
    ap (λ x. x.0.rows) (answers_declare rows c query declares) ∙ sym same,
  );
  finished_idle = λ topic c e. tt;
}
