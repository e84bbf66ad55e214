-- ===== src/Tests/Rounds.antt =====
-- The loop of the outbox worker on the test data: a round with the queue down, then one that works.
use ride_flow.Prelude.{true, [], ◌∷◌, List, filterb, ◌≡◌, refl, arith}
use ride_flow.Database.{constraints}
use ride_flow.OutboxWorker.Due.{is_due}
use ride_flow.OutboxWorker.Forever.{Round, run_rounds}
use ride_flow.OutboxWorker.Drained.{no_round, down, up, run_rounds-drains}
use ride_flow.OutboxWorker.Accounted.{Accounted, run_rounds-Accounted}
use ride_flow.Tests.Tables.{list_sql}
use ride_flow.Tests.Deliveries.{due, works, queue_down}

abbrev broken_round : Round
broken_round = record { fails = queue_down; now = 40 }

abbrev good_round : Round
good_round = record { fails = works; now = 41 }

abbrev rounds : List Round
rounds = broken_round ∷ good_round ∷ []

due_in_order : constraints due.db ≡ true
unfolding constraints
due_in_order = refl

due-Accounted : Accounted due
due-Accounted = record { keyed = (refl, (refl, tt)); sent_all = ((λ p. cc), ((λ p. cc), tt)) }

run_rounds-drains_example : filterb is_due (run_rounds rounds due).1.db.outbox_events ≡ []
run_rounds-drains_example =
    run_rounds-drains rounds due (down broken_round (up good_round (λ m. refl) no_round))
      due_in_order (omega arith)

run_rounds-Accounted_example : Accounted (run_rounds rounds due).1
run_rounds-Accounted_example = run_rounds-Accounted rounds due due-Accounted
