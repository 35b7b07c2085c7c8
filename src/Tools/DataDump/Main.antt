-- ===== src/Tools/DataDump/Main.antt =====
-- What `main` of source/tools/dataDump/dataDump.cpp asks for: the ids of its three queries. The
-- queries with the converter are in Converting.antt; Sequence.antt has the reading of one query on a
-- store at rest.
pub mod Sequence
pub mod Closing
pub mod Start
use api_pack.Base.{ℕ, List, [], ◌∷◌}
use api_pack.Base.Text.{Decimal, codes}
use api_pack.Datastore.ScheduleDay.{Calendar, create_from_string}
use api_pack.Datastore.Libpq.{Libpq}

abbrev pub ids : List ℕ
ids = 96541 ∷ 96446 ∷ 95856 ∷ 95643 ∷ 93825 ∷ 92394 ∷ 92160 ∷ 92022 ∷ 92020 ∷ 92008 ∷ []

abbrev pub ids4 : List ℕ
ids4 =
    19556 ∷ 10121 ∷ 16300 ∷ 17693 ∷ 19635 ∷ 76990 ∷ 76965 ∷ 66268 ∷ 88533 ∷ 61474 ∷ 10153 ∷ 15451
    ∷ 85932 ∷ 95643 ∷ 78789 ∷ 47499 ∷ 11481 ∷ 65717 ∷ 20709 ∷ 34949 ∷ 83098 ∷ 59845 ∷ 56278 ∷ 82572
    ∷ 21623 ∷ 48639 ∷ 10269 ∷ 10760 ∷ 59155 ∷ 20675 ∷ 73812 ∷ 79632 ∷ 16496 ∷ 11461 ∷ 87122 ∷ 24125
    ∷ 70975 ∷ 71662 ∷ 58698 ∷ 69073 ∷ 72468 ∷ 65342 ∷ 90134 ∷ 59368 ∷ 66284 ∷ 15717 ∷ 38961 ∷ 17683
    ∷ 71115 ∷ 58333 ∷ 73965 ∷ 16320 ∷ 12009 ∷ 50500 ∷ 73467 ∷ 76126 ∷ 59952 ∷ 75479 ∷ 92008 ∷ 10991
    ∷ 89535 ∷ 60121 ∷ 77107 ∷ 88801 ∷ 71209 ∷ 55241 ∷ 19631 ∷ 60150 ∷ 17457 ∷ 66347 ∷ 68140 ∷ 74484
    ∷ 10145 ∷ 17956 ∷ 34916 ∷ 19520 ∷ 64591 ∷ 62125 ∷ 65791 ∷ 76367 ∷ 90136 ∷ 18086 ∷ 72014 ∷ 33725
    ∷ 14791 ∷ 83173 ∷ 71205 ∷ 70337 ∷ 11118 ∷ 59366 ∷ 16879 ∷ 23392 ∷ 26772 ∷ 64490 ∷ 11779 ∷ 66379
    ∷ 72729 ∷ 44642 ∷ 21544 ∷ 11299 ∷ 26827 ∷ 24569 ∷ 91109 ∷ 24521 ∷ 21617 ∷ 58625 ∷ 61628 ∷ 20655
    ∷ 70993 ∷ 16584 ∷ 71040 ∷ 88770 ∷ 37771 ∷ 48859 ∷ 45399 ∷ 71214 ∷ 71799 ∷ 49582 ∷ 11163 ∷ 32281
    ∷ 74281 ∷ 11653 ∷ 97891 ∷ 74290 ∷ 34941 ∷ 34933 ∷ 78584 ∷ 74278 ∷ 73264 ∷ 67331 ∷ 29058 ∷ 34290
    ∷ 15085 ∷ 14776 ∷ 24935 ∷ 25270 ∷ 59839 ∷ []

module _ (lib : Libpq) (p : Decimal) (c : Calendar) (fuel : ℕ) where
  abbrev pub ids2 : List ℕ
  ids2 =
      create_from_string c 10003 (codes "2016-05-08")
      ∷ create_from_string c 10003 (codes "2016-05-09")
      ∷ create_from_string c 10003 (codes "2016-05-10")
      ∷ []
