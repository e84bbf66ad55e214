-- ===== src/OutboxWorker/Forever.antt =====
-- backend/app/workers/outbox_worker.py, `run_forever`: the rounds one after another, where a round
-- that fails is logged and the next one follows. What the loop does is looked at for as many rounds
-- as one likes.
use ride_flow.Prelude.{ℕ, zero, suc, List, [], ◌∷◌, ◌++◌, Option}
use ride_flow.Models.{DateTime}
use ride_flow.Sql.{Sql}
use ride_flow.Database.{Result, Exn, ok, err}
use ride_flow.OutboxWorker.{Message, Worker, process_batch}

-- What one round meets: the messages that cannot be sent while it lasts, and the time.
pub record Round : Type 0 where
  pub fails : Message → Option Exn
  pub now : DateTime

pub data Line : Type 0 where
  outbox_batch_processed : ℕ → Line
  outbox_worker_error : Exn → Line

-- `if processed:`
unfoldable pub log_count : ℕ → List Line
log_count zero = []
log_count (suc n) = outbox_batch_processed (suc n) ∷ []

unfoldable pub log_round : Result ℕ → List Line
log_round (ok processed) = log_count processed
log_round (err e) = outbox_worker_error e ∷ []

module _ ⦃sql : Sql⦄ where
  unfoldable pub run_rounds : List Round → Worker → List Line × Worker
  run_rounds [] s = ([], s)
  run_rounds (round ∷ rounds) s =
      let (result, s') = process_batch round.fails round.now s in
      let (lines, s'') = run_rounds rounds s' in (log_round result ++ lines, s'')
