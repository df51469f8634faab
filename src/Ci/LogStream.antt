-- ===== src/Ci/LogStream.antt =====
-- src/server/ci/log-stream.ts: the log of one run, a table of chunks and the subscribers to it.
-- The rows stand in the order in which they were inserted; a subscriber keeps what it receives,
-- and throws on a chunk that it does not accept.
pub mod Rows
mod Tests
use gitflare.Prelude.{
  ℕ, zero, suc, ◌+◌, ◌-◌, max, Bool, true, false, ◌&&◌, ◌||◌, ◌==◌, not, Option, none, some, List,
  [], ◌∷◌, ◌++◌, leb, ltb, length, get_elem?, filter, Text, codes, text_eq, if◌then◌else◌,
}

pub record LogChunk : Type 0 where
  pub sequence : ℕ
  pub step_name : Text
  pub text : Text
  pub is_stderr : Bool
  pub at : ℕ

pub record Subscriber : Type 0 where
  pub id : ℕ
  pub accepts : LogChunk → Bool
  pub received : List LogChunk

pub record CiLogStream : Type 0 where
  pub chunks : List LogChunk
  pub subscribers : List Subscriber

abbrev pub max_buffered_chunks : ℕ
max_buffered_chunks = 5000

-- `MAX(sequence) ?? 0`
abbrev pub max_sequence : ℕ → List LogChunk → ℕ
max_sequence m [] = m
max_sequence m (c ∷ chunks) = max_sequence (max m c.sequence) chunks

abbrev pub next_sequence : List LogChunk → ℕ
next_sequence chunks = max_sequence 0 chunks + 1

-- `ORDER BY sequence DESC`, of rows whose sequence increases.
abbrev pub descending : List LogChunk → List LogChunk
descending [] = []
descending (c ∷ chunks) = descending chunks ++ c ∷ []

-- `DELETE ... WHERE sequence <= bound`; a bound of NULL deletes nothing.
abbrev pub delete_up_to : Option LogChunk → List LogChunk → List LogChunk
delete_up_to none chunks = chunks
delete_up_to (some bound) chunks = filter (λ c. not (leb c.sequence bound.sequence)) chunks

unfoldable pub trim_rows : ℕ → List LogChunk → List LogChunk
trim_rows limit chunks =
    if leb (length chunks) limit
    then chunks
    else delete_up_to (get_elem? (descending chunks) (limit - 1)) chunks

-- The loop over the subscribers: one that throws is removed.
abbrev pub publish : LogChunk → List Subscriber → List Subscriber
publish chunk [] = []
publish chunk (subscriber ∷ subscribers) =
    if subscriber.accepts chunk
    then record subscriber { received = subscriber.received ++ chunk ∷ [] }
      ∷ publish chunk subscribers
    else publish chunk subscribers

abbrev pub new_chunk : CiLogStream → Text → Text → Bool → ℕ → LogChunk
new_chunk stream step_name text is_stderr now = record {
  sequence = next_sequence stream.chunks;
  step_name = step_name;
  text = text;
  is_stderr = is_stderr;
  at = now;
}

-- The state afterwards; the sequence number that it returns is that of `new_chunk`.
abbrev pub append : CiLogStream → Text → Text → Bool → ℕ → CiLogStream
append stream step_name text is_stderr now =
    let chunk = new_chunk stream step_name text is_stderr now in
    record {
      chunks = trim_rows max_buffered_chunks (stream.chunks ++ chunk ∷ []);
      subscribers = publish chunk stream.subscribers;
    }

-- No name, or an empty one, asks for every step.
abbrev pub is_of_step : Option Text → LogChunk → Bool
is_of_step none chunk = true
is_of_step (some []) chunk = true
is_of_step (some (c ∷ name)) chunk = text_eq chunk.step_name (c ∷ name)

abbrev pub history : CiLogStream → ℕ → Option Text → List LogChunk
history stream after_sequence step_name =
    filter (λ c. ltb after_sequence c.sequence && is_of_step step_name c) stream.chunks

-- `Set.prototype.add`
abbrev pub has_subscriber : ℕ → List Subscriber → Bool
has_subscriber id [] = false
has_subscriber id (s ∷ subscribers) = s.id == id || has_subscriber id subscribers

abbrev pub subscribe : CiLogStream → Subscriber → CiLogStream
subscribe stream subscriber =
    if has_subscriber subscriber.id stream.subscribers
    then stream
    else record stream { subscribers = stream.subscribers ++ subscriber ∷ [] }

abbrev pub unsubscribe : CiLogStream → ℕ → CiLogStream
unsubscribe stream id = record stream {
  subscribers = filter (λ s. not (s.id == id)) stream.subscribers;
}

-- The text starts with the code unit 0.
abbrev pub finish_stream : CiLogStream → Text → ℕ → CiLogStream
finish_stream stream status now = append stream [] (0 ∷ (codes "finished:" ++ status)) false now
