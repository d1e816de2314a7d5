-- ===== src/Manager/Run/Handover.antt =====
-- What turns of `run` hand over and leave, as lists of envelopes.
use momo_hdb.Base.{
  refl, map, Text, ◌+◌, ◌<◌, length, append-nil, append_assoc, take-append-drop, ℕ, ◌≡◌, sym, ap,
  subst, ◌∙◌, List, [], ◌∷◌, ◌++◌, take, drop,
}
use momo_hdb.Ring.Overflow.{offer, offer_room}
use momo_hdb.Downstream.{Envelope}
use momo_hdb.Manager.Push.{batch_max}
use momo_hdb.Manager.Run

-- What the inbox holds after the arrivals among these, if it held `q`.
abbrev pub arrive_all : ℕ → List Run.Happening → List Envelope → List Envelope
arrive_all cap [] q = q
arrive_all cap (Run.arrives e ∷ hs) q = arrive_all cap hs (offer cap e q)
arrive_all cap (Run.connects success ∷ hs) q = arrive_all cap hs q
arrive_all cap (Run.works name ∷ hs) q = arrive_all cap hs q

-- What the turns hand to the sink from an inbox of `cap` slots that holds `q`, and what they leave.
abbrev pub handed : ℕ → List Run.Turn → List Envelope → List Envelope
handed cap [] q = []
handed cap (t ∷ ts) q =
    take batch_max q ++ handed cap ts (arrive_all cap t.meanwhile (drop batch_max q))

abbrev pub unsent : ℕ → List Run.Turn → List Envelope → List Envelope
unsent cap [] q = q
unsent cap (t ∷ ts) q = unsent cap ts (arrive_all cap t.meanwhile (drop batch_max q))

-- What befalls the sink: it gets an envelope, or a thread of its own makes a round.
pub data SinkEvent : Type 0 where
  gets : Envelope → SinkEvent
  acts : Text → SinkEvent

abbrev pub acts_of : List Run.Happening → List SinkEvent
acts_of [] = []
acts_of (Run.arrives e ∷ hs) = acts_of hs
acts_of (Run.connects success ∷ hs) = acts_of hs
acts_of (Run.works name ∷ hs) = acts name ∷ acts_of hs

-- What befalls the sink in these turns.
abbrev pub sink_events : ℕ → List Run.Turn → List Envelope → List SinkEvent
sink_events cap [] q = []
sink_events cap (t ∷ ts) q =
    map gets (take batch_max q)
    ++ (acts_of t.meanwhile ++ sink_events cap ts (arrive_all cap t.meanwhile (drop batch_max q)))

abbrev pub given : List SinkEvent → List Envelope
given [] = []
given (gets e ∷ es) = e ∷ given es
given (acts name ∷ es) = given es

given-gets :
    (es : List Envelope) (rest : List SinkEvent) → given (map gets es ++ rest) ≡ es ++ given rest
given-gets [] rest = refl
given-gets (e ∷ es) rest = ap (λ l. e ∷ l) (given-gets es rest)

given-acts_of :
    (hs : List Run.Happening) (rest : List SinkEvent) → given (acts_of hs ++ rest) ≡ given rest
given-acts_of [] rest = refl
given-acts_of (Run.arrives e ∷ hs) rest = given-acts_of hs rest
given-acts_of (Run.connects success ∷ hs) rest = given-acts_of hs rest
given-acts_of (Run.works name ∷ hs) rest = given-acts_of hs rest

pub given-sink_events :
    (cap : ℕ) (ts : List Run.Turn) (q : List Envelope)
    → given (sink_events cap ts q) ≡ handed cap ts q
given-sink_events cap [] q = refl
given-sink_events cap (t ∷ ts) q =
    let q2 = arrive_all cap t.meanwhile (drop batch_max q) in
    given-gets (take batch_max q) (acts_of t.meanwhile ++ sink_events cap ts q2)
    ∙ ap (λ l. take batch_max q ++ l)
        (given-acts_of t.meanwhile (sink_events cap ts q2) ∙ given-sink_events cap ts q2)

-- The envelopes that arrive.
abbrev pub arrivals : List Run.Happening → List Envelope
arrivals [] = []
arrivals (Run.arrives e ∷ hs) = e ∷ arrivals hs
arrivals (Run.connects success ∷ hs) = arrivals hs
arrivals (Run.works name ∷ hs) = arrivals hs

abbrev pub all_arrivals : List Run.Turn → List Envelope
all_arrivals [] = []
all_arrivals (t ∷ ts) = arrivals t.meanwhile ++ all_arrivals ts

-- Each arrival finds room in an inbox of `cap` slots that holds `q`.
abbrev pub HaveRoom : ℕ → List Run.Happening → List Envelope → Type 0
HaveRoom cap [] q = Unit
HaveRoom cap (Run.arrives e ∷ hs) q = (length q + 1 < cap) × HaveRoom cap hs (q ++ (e ∷ []))
HaveRoom cap (Run.connects success ∷ hs) q = HaveRoom cap hs q
HaveRoom cap (Run.works name ∷ hs) q = HaveRoom cap hs q

-- So does each arrival between the turns.
abbrev pub AllRoom : ℕ → List Run.Turn → List Envelope → Type 0
AllRoom cap [] q = Unit
AllRoom cap (t ∷ ts) q =
    HaveRoom cap t.meanwhile (drop batch_max q)
    × AllRoom cap ts (drop batch_max q ++ arrivals t.meanwhile)

arrive_all_room :
    (cap : ℕ) (hs : List Run.Happening) (q : List Envelope)
    → HaveRoom cap hs q
    → arrive_all cap hs q ≡ q ++ arrivals hs
arrive_all_room cap [] q room = sym (append-nil q)
arrive_all_room cap (Run.arrives e ∷ hs) q room =
    ap (arrive_all cap hs) (offer_room cap e q room.0)
    ∙ arrive_all_room cap hs (q ++ (e ∷ [])) room.1
    ∙ append_assoc q (e ∷ []) (arrivals hs)
arrive_all_room cap (Run.connects success ∷ hs) q room = arrive_all_room cap hs q room
arrive_all_room cap (Run.works name ∷ hs) q room = arrive_all_room cap hs q room

pub handed-unsent :
    (cap : ℕ) (ts : List Run.Turn) (q : List Envelope)
    → AllRoom cap ts q
    → handed cap ts q ++ unsent cap ts q ≡ q ++ all_arrivals ts
handed-unsent cap [] q room = sym (append-nil q)
handed-unsent cap (t ∷ ts) q room =
    let kept = drop batch_max q in
    let q2 = arrive_all cap t.meanwhile kept in
    let same = arrive_all_room cap t.meanwhile kept room.0 in
    let ih =
      handed-unsent cap ts q2 (subst (AllRoom cap ts) (sym same) room.1)
      ∙ ap (λ l. l ++ all_arrivals ts) same in
    append_assoc (take batch_max q) (handed cap ts q2) (unsent cap ts q2)
    ∙ ap (λ l. take batch_max q ++ l)
        (ih ∙ append_assoc kept (arrivals t.meanwhile) (all_arrivals ts))
    ∙ sym (append_assoc (take batch_max q) kept (arrivals t.meanwhile ++ all_arrivals ts))
    ∙ ap (λ l. l ++ (arrivals t.meanwhile ++ all_arrivals ts)) (take-append-drop batch_max q)
