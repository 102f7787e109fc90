-- ===== src/Tests/Data.antt =====
-- Envelopes with numbers as payloads, and a store with two aggregates.
use pericarp.Prelude.{String, ℕ, [], ◌∷◌}
use pericarp.Prelude.Int.{pos}
use pericarp.Event.{Envelope}
use pericarp.EventStore.Memory.{MemoryStore}

abbrev pub envelope : String → String → ℕ → Envelope ℕ ℕ
envelope id aggregate_id n = record {
  id = id;
  aggregate_id = aggregate_id;
  event_type = "order.created";
  payload = n;
  created = 0;
  sequence_no = pos n;
  transaction_id = "";
  metadata = [];
  position = pos 0;
}

abbrev pub at : ℕ → Envelope ℕ ℕ → Envelope ℕ ℕ
at p e = record e { position = pos p }

abbrev pub a1 : Envelope ℕ ℕ
a1 = envelope "e1" "a" 1

abbrev pub a2 : Envelope ℕ ℕ
a2 = envelope "e2" "a" 2

abbrev pub b1 : Envelope ℕ ℕ
b1 = envelope "e3" "b" 1

-- The store behind an append of a1 and a2, and then of b1.
abbrev pub two_aggregates : MemoryStore ℕ
two_aggregates = record {
  events = ("a", at 1 a1 ∷ at 2 a2 ∷ []) ∷ ("b", at 3 b1 ∷ []) ∷ [];
  events_by_id = ("e1", at 1 a1) ∷ ("e2", at 2 a2) ∷ ("e3", at 3 b1) ∷ [];
  versions = ("a", pos 2) ∷ ("b", pos 1) ∷ [];
  log = at 1 a1 ∷ at 2 a2 ∷ at 3 b1 ∷ [];
  last_pos = pos 3;
}
