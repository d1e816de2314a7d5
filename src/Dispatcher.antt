-- ===== src/Dispatcher.antt =====
-- momo_feed/{include,src}/runtime/Dispatcher: the `Dispatcher`, which shares every message out to all
-- of its downstreams. The state of a sink is of one type, a sum where sinks differ.
pub mod Fanout
use momo_hdb.Base.{Option, none, some, List, [], ◌∷◌, ◌++◌, map, Text}
use momo_hdb.Base.Int.{ℤ}
use momo_hdb.Downstream.{
  Envelope, Pointer, ISink, Downstream, new_downstream, start, stop, submit, flush,
}

pub record Dispatcher (S : Type 0) : Type 0 where
  pub downstreams : List (Downstream S)

module _ {S : Type 0} where
  -- The constructor from a vector: every downstream is started.
  unfoldable pub make_dispatcher : List (Downstream S) → Dispatcher S
  make_dispatcher ds = record { downstreams = map start ds }

  abbrev add_made : Option (Downstream S) → Dispatcher S → Option (Dispatcher S)
  add_made none self = none
  add_made (some d) self = some (record { downstreams = self.downstreams ++ (start d ∷ []) })

  -- `add_downstream`; `none` is an exception of the queue's constructor.
  unfoldable pub add_downstream : Text → S → Dispatcher S → Option (Dispatcher S)
  add_downstream name sink self = add_made (new_downstream name sink) self

  -- `dispatch`, and `submit`, which makes the message shared first.
  unfoldable pub dispatch : Pointer → Dispatcher S → Dispatcher S
  dispatch e self = record { downstreams = map (submit e) self.downstreams }

  unfoldable pub submit_envelope : Envelope → Dispatcher S → Dispatcher S
  unfolding dispatch
  submit_envelope e self = dispatch (some e) self

  unfoldable pub flush_all : ISink S → ℤ → Dispatcher S → Dispatcher S
  flush_all api timeout_ms self = record {
    downstreams = map (flush api timeout_ms) self.downstreams;
  }

  -- The destructor.
  unfoldable pub destroy : ISink S → Dispatcher S → Dispatcher S
  destroy api self = record { downstreams = map (stop api) self.downstreams }
