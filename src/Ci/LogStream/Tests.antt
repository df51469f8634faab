-- ===== src/Ci/LogStream/Tests.antt =====
-- Runs of the log, and its theorem at a small log.
use gitflare.Prelude.{ℕ, ◌≡◌, refl, true, false, none, some, [], ◌∷◌, Text, codes, arith}
use gitflare.Ci.LogStream.{
  LogChunk, CiLogStream, trim_rows, new_chunk, append, history, subscribe, unsubscribe,
  finish_stream,
}
use gitflare.Ci.LogStream.Rows.{IsAppended, append-IsAppended}

abbrev chunk : ℕ → Text → LogChunk
chunk n step = record {
  sequence = n;
  step_name = step;
  text = codes "t";
  is_stderr = false;
  at = 0;
}

abbrev log : CiLogStream
log = record {
  chunks = chunk 4 (codes "a") ∷ chunk 5 (codes "b") ∷ [];
  subscribers =
      record { id = 1; accepts = λ c. false; received = [] }
      ∷ record { id = 2; accepts = λ c. true; received = [] }
      ∷ [];
}

-- Of four rows a limit of three leaves two.
trimmed :
    trim_rows 3 (chunk 1 [] ∷ chunk 2 [] ∷ chunk 3 [] ∷ chunk 4 [] ∷ [])
    ≡ chunk 3 [] ∷ chunk 4 [] ∷ []
unfolding trim_rows
trimmed = refl

-- The subscriber that throws is gone, the other one has the chunk.
published :
    (append log (codes "a") (codes "t") false 0).subscribers
    ≡ record { id = 2; accepts = λ c. true; received = chunk 6 (codes "a") ∷ [] } ∷ []
published = refl

closed :
    (unsubscribe
      (subscribe log record { id = 2; accepts = λ c. true; received = [] })
      2).subscribers
    ≡ record { id = 1; accepts = λ c. false; received = [] } ∷ []
closed = refl

ended :
    history (finish_stream log (codes "success") 9) 5 none
    ≡ record {
      sequence = 6;
      step_name = [];
      text = 0 ∷ codes "finished:success";
      is_stderr = false;
      at = 9;
    }
      ∷ []
unfolding trim_rows
ended = refl

of_step : history log 0 (some (codes "b")) ≡ chunk 5 (codes "b") ∷ []
of_step = refl

append-IsAppended_example :
    IsAppended log
      (new_chunk log (codes "a") (codes "t") false 0)
      (append log (codes "a") (codes "t") false 0)
append-IsAppended_example =
    append-IsAppended log (codes "a") (codes "t") false 0 (omega arith, (omega arith, tt))
      (omega arith)
