-- ===== src/Kfkpb/Flow.antt =====
-- One message on its way through the client: the worker that its key picks, and the event that a
-- round of that worker's loop makes of it.
use momo_hdb.Base.{
  ℕ, zero, suc, ◌%◌, ◌<◌, ◌≡◌, refl, sym, subst, ◌∙◌, Bool, true, false, Option, none, some,
}
use momo_hdb.Base.{
  List, [], ◌∷◌, Text, length, get_elem?, get_elem?-set_self, set, ◌==◌, arith, if◌then◌else◌,
}
use momo_hdb.Ring.{Ring, try_pop}
use momo_hdb.Ring.Refine.{Holds, try_pop_cons}
use momo_hdb.Ring.Overflow.{offer, push_or_drop, push_or_drop_lem, cap-push_or_drop, cap-try_pop}
use momo_hdb.Decoders.{Decoded}
use momo_hdb.Kfkpb

get_elem?-modify {ℓ} :
    {A : Type ℓ} (xs : List A) (i : ℕ) (f : A → A) {x : A}
    → get_elem? xs i ≡ some x
    → get_elem? (Kfkpb.modify xs i f) i ≡ some (f x)
get_elem?-modify [] i f e = cc
get_elem?-modify (y ∷ xs) zero f e = cc
get_elem?-modify (y ∷ xs) (suc i) f e = get_elem?-modify xs i f e

pub worker_of_key :
    (hash : Text → ℕ) (m : Kfkpb.RawMsg) (c : Kfkpb.Client)
    → 0 < length m.key
    → 0 < length c.raw_qs
    → Kfkpb.worker_index_for hash m c ≡ (hash m.key % length c.raw_qs, c)
unfolding Kfkpb.worker_index_for
worker_of_key hash m c keyed some_worker =
    let worker : (length c.raw_qs == 0) ≡ false = ground arith in
    let key : (length m.key == 0) ≡ false = ground arith in rw (worker, key) refl

-- The queue at index `i` holds `q`, in `cap` slots.
pub record HoldsAt {ℓ} {A : Type ℓ} (cap : ℕ) (q : List (Option A)) (qs : List (Ring (Option A)))
    (i : ℕ) : Type ℓ where
  pub ring : Ring (Option A)
  pub at : get_elem? qs i ≡ some ring
  pub slots : ring.cap ≡ cap
  pub queued : Holds ring q

pushed_at {ℓ} :
    {A : Type ℓ} (v : Option A) (cap : ℕ) (q : List (Option A)) (qs : List (Ring (Option A)))
    (i : ℕ)
    → HoldsAt cap q qs i
    → HoldsAt cap (offer cap v q) (Kfkpb.modify qs i (push_or_drop Kfkpb.moved_ptr none v)) i
pushed_at v cap q qs i h = record {
  ring = push_or_drop Kfkpb.moved_ptr none v h.ring;
  at = get_elem?-modify qs i (push_or_drop Kfkpb.moved_ptr none v) h.at;
  slots = cap-push_or_drop Kfkpb.moved_ptr none v h.ring ∙ h.slots;
  queued =
      subst (λ n. Holds (push_or_drop Kfkpb.moved_ptr none v h.ring) (offer n v q)) h.slots
        (push_or_drop_lem Kfkpb.moved_ptr none v q h.queued);
}

-- With one worker at least, a message with a key goes to the worker that the hash of its key
-- picks, whatever the counter: that worker's queue is offered the message.
pub push_raw_keyed :
    (hash : Text → ℕ) (m : Kfkpb.RawMsg) (c : Kfkpb.Client) (cap : ℕ)
    (q : List (Option Kfkpb.RawMsg))
    → 0 < length m.key
    → 0 < length c.raw_qs
    → HoldsAt cap q c.raw_qs (hash m.key % length c.raw_qs)
    → HoldsAt cap
        (offer cap (some m) q)
        (Kfkpb.push_raw hash m c).raw_qs
        (hash m.key % length c.raw_qs)
unfolding Kfkpb.push_raw
push_raw_keyed hash m c cap q keyed some_worker h =
    subst
      (λ (p : ℕ × Kfkpb.Client).
        HoldsAt cap (offer cap (some m) q)
          (Kfkpb.modify p.1.raw_qs p.0 (push_or_drop Kfkpb.moved_ptr none (some m)))
          (hash m.key % length c.raw_qs))
      (sym (worker_of_key hash m c keyed some_worker))
      (pushed_at (some m) cap q c.raw_qs (hash m.key % length c.raw_qs) h)

popped_at :
    {A : Type 0} (x : Option A) (cap : ℕ) (q : List (Option A)) (qs : List (Ring (Option A)))
    (i : ℕ) {r : Ring (Option A)}
    → get_elem? qs i ≡ some r
    → r.cap ≡ cap
    → Holds r (x ∷ q)
    → HoldsAt cap q (set qs i (try_pop Kfkpb.moved_ptr none r).2) i
popped_at {A} x cap q qs i {r} at slots h = record {
  ring = (try_pop Kfkpb.moved_ptr none r).2;
  at = get_elem?-set_self qs i (try_pop Kfkpb.moved_ptr none r).2 (in_bounds qs i at);
  slots = cap-try_pop Kfkpb.moved_ptr none r ∙ slots;
  queued = (try_pop_cons Kfkpb.moved_ptr none x q h).2;
}
  where
    in_bounds : (qs : List (Ring (Option A))) (i : ℕ) → get_elem? qs i ≡ some r → i < length qs
    in_bounds [] i e = cc
    in_bounds (y ∷ ys) zero e = omega arith
    in_bounds (y ∷ ys) (suc i) e = omega (arith, in_bounds ys i e)

-- A round of a worker whose queue has a message first takes that message off its queue, and offers the
-- worker's event queue one event: the one that the message decodes to, data or error.
pub decode_round_lem :
    (decode : Kfkpb.MsgType → Kfkpb.RawMsg → Decoded) (w : ℕ) (c : Kfkpb.Client) (m : Kfkpb.RawMsg)
    (raw_cap evt_cap : ℕ) (q : List (Option Kfkpb.RawMsg)) (evs : List (Option Kfkpb.Event))
    → HoldsAt raw_cap (some m ∷ q) c.raw_qs w
    → HoldsAt evt_cap evs c.evt_qs w
    → let c' = Kfkpb.decode_round decode w c in
      let ev = Kfkpb.decoded_event decode c.topic_types m in
      HoldsAt raw_cap q c'.raw_qs w × HoldsAt evt_cap (offer evt_cap (some ev) evs) c'.evt_qs w
unfolding Kfkpb.decode_round Kfkpb.decode_round_on Kfkpb.decode_popped Kfkpb.push_event
decode_round_lem decode w c m raw_cap evt_cap q evs raw evt =
    let (got, eq, rest) = try_pop_cons Kfkpb.moved_ptr none (some m) q raw.queued in
    let ev = Kfkpb.decoded_event decode c.topic_types m in
    rw (raw.at, got, eq)
      (
        popped_at (some m) raw_cap q c.raw_qs w raw.at raw.slots raw.queued,
        pushed_at (some ev) evt_cap evs c.evt_qs w evt,
      )

-- What the event of a message says, given its error flag, whether its type is unknown, and what the
-- decoder gives.
pub record Says (m : Kfkpb.RawMsg) (is_error unknown : Bool) (d : Decoded) (ev : Kfkpb.Event)
    : Type 0 where
  pub topic : ev.topic ≡ m.topic
  pub key : ev.key ≡ m.key
  pub ingest : ev.ingest_ns ≡ m.ts_ns
  pub data_of :
      ev.kind ≡ Kfkpb.Kind.data_kind
      → (is_error ≡ false) × (unknown ≡ false) × (d ≡ Decoded.kbytes ev.payload)
  pub of_bytes :
      (out : List ℕ)
      → is_error ≡ false
      → unknown ≡ false
      → d ≡ Decoded.kbytes out
      → (ev.kind ≡ Kfkpb.Kind.data_kind) × (ev.payload ≡ out)

event_Says :
    (m : Kfkpb.RawMsg) (mt : Kfkpb.MsgType) (message : Text) (is_error unknown : Bool) (d : Decoded)
    → Says m is_error unknown d (
        if is_error
        then Kfkpb.error_event m Kfkpb.MsgType.unknown m.err_msg
        else if unknown
        then Kfkpb.error_event m Kfkpb.MsgType.unknown message
        else Kfkpb.outcome_event m mt d)
unfolding Kfkpb.outcome_event
event_Says m mt message true unknown d = record {
  topic = refl;
  key = refl;
  ingest = refl;
  data_of = λ e. cc;
  of_bytes = λ out a b e. cc;
}
event_Says m mt message false true d = record {
  topic = refl;
  key = refl;
  ingest = refl;
  data_of = λ e. cc;
  of_bytes = λ out a b e. cc;
}
event_Says m mt message false false (Decoded.kbytes out) = record {
  topic = refl;
  key = refl;
  ingest = refl;
  data_of = λ e. (refl, refl, refl);
  of_bytes = λ out' a b e. (refl, cc);
}
event_Says m mt message false false (Decoded.failed em) = record {
  topic = refl;
  key = refl;
  ingest = refl;
  data_of = λ e. cc;
  of_bytes = λ out a b e. cc;
}
event_Says m mt message false false Decoded.threw = record {
  topic = refl;
  key = refl;
  ingest = refl;
  data_of = λ e. cc;
  of_bytes = λ out a b e. cc;
}

-- Whatever becomes of a message, its event carries the message's topic, key and time. A data event
-- comes only of a message that is no error, whose topic has a type, and whose decoder gives the event's
-- bytes; and such a message does become one.
pub decoded_event_lem :
    (decode : Kfkpb.MsgType → Kfkpb.RawMsg → Decoded) (topics : List (Text × Kfkpb.MsgType))
    (m : Kfkpb.RawMsg)
    → let mt = Kfkpb.type_of_topic topics m.topic in
      Says m m.is_error (Kfkpb.is_unknown mt) (decode mt m) (Kfkpb.decoded_event decode topics m)
unfolding Kfkpb.decoded_event
decoded_event_lem decode topics m =
    let mt = Kfkpb.type_of_topic topics m.topic in
    event_Says m mt _ m.is_error (Kfkpb.is_unknown mt) (decode mt m)
