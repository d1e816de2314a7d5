-- ===== src/Qapi/Topics.antt =====
-- What a subscription from q leaves with the client.
use momo_hdb.Base.{
  ◌+◌, ◌≡◌, ◌∙◌, refl, sym, ap, subst, Bool, true, false, not, ◌&&◌, ◌||◌, Bool-cases, inl, inr,
  none, some, List, [], ◌∷◌, ◌++◌, Text, bytes, text_eq, text_eq_iff, arith, if◌then◌else◌,
}
use momo_hdb.Yaml.{Call, returned, raised}
use momo_hdb.Kfkpb.{Client, MsgType, type_of_topic, infer_type_from_topic, is_unknown}
use momo_hdb.Kfkpb
use momo_hdb.Qapi.{K, Api, has_topic, emplace}
use momo_hdb.Qapi

abbrev pub mem : Text → List Text → Bool
mem t [] = false
mem t (topic ∷ rest) = text_eq topic t || mem t rest

-- The names of all topics tell their types.
abbrev pub all_known : List Text → Bool
all_known [] = true
all_known (topic ∷ rest) = not (is_unknown (infer_type_from_topic topic)) && all_known rest

type_of_topic-snoc :
    (out : List (Text × MsgType)) (k : Text) (m : MsgType) (t : Text)
    → type_of_topic (out ++ ((k, m) ∷ [])) t ≡ (
        if has_topic t out then type_of_topic out t else if text_eq k t then m else MsgType.unknown)
unfolding type_of_topic
type_of_topic-snoc [] k m t = refl
type_of_topic-snoc ((k', m') ∷ out) k m t = ground (arith, type_of_topic-snoc out k m t)

has_topic-snoc :
    (out : List (Text × MsgType)) (k : Text) (m : MsgType) (t : Text)
    → has_topic t (out ++ ((k, m) ∷ [])) ≡ (has_topic t out || text_eq k t)
has_topic-snoc [] k m t = ground arith
has_topic-snoc ((k', m') ∷ out) k m t = ground (arith, has_topic-snoc out k m t)

-- The type that a list of topics gives to one, behind those that are there already.
abbrev typed : List Text → List (Text × MsgType) → Text → MsgType
typed ss out t =
    if has_topic t out
    then type_of_topic out t
    else if mem t ss
    then infer_type_from_topic t
    else MsgType.unknown

typed-emplace :
    (topic : Text) (ss : List Text) (out : List (Text × MsgType)) (t : Text)
    → typed ss (emplace topic (infer_type_from_topic topic) out) t ≡ typed (topic ∷ ss) out t
typed-emplace topic ss out t =
    let m = infer_type_from_topic topic in
    ground (
      arith,
      type_of_topic-snoc out topic m t,
      has_topic-snoc out topic m t,
      text_eq_iff topic t,
      ap (λ s. has_topic s out),
      ap infer_type_from_topic,
    )

parse_symbols_lem :
    (ss : List Text) (out : List (Text × MsgType))
    → all_known ss ≡ true
    → (topics : List (Text × MsgType)) × (Qapi.parse_symbols ss out ≡ returned topics)
      × ((t : Text)
          → (if has_topic t topics then type_of_topic topics t else MsgType.unknown)
            ≡ typed ss out t)
unfolding Qapi.parse_symbols
parse_symbols_lem [] out e = (out, refl, λ t. refl)
parse_symbols_lem (topic ∷ ss) out e =
    let (topics, parsed, types) =
      parse_symbols_lem ss (emplace topic (infer_type_from_topic topic) out) (ground arith) in
    (topics, ground (arith, parsed), λ t. types t ∙ typed-emplace topic ss out t)

type_of_topic_found :
    (out : List (Text × MsgType)) (t : Text)
    → type_of_topic out t ≡ (if has_topic t out then type_of_topic out t else MsgType.unknown)
unfolding type_of_topic
type_of_topic_found [] t = refl
type_of_topic_found ((k, m) ∷ out) t = ground (arith, type_of_topic_found out t)

parse_symbols_failed :
    (ss : List Text) (out : List (Text × MsgType))
    → all_known ss ≡ false
    → (what : Text) × (Qapi.parse_symbols ss out ≡ raised what)
unfolding Qapi.parse_symbols
parse_symbols_failed [] out e = cc
parse_symbols_failed (topic ∷ ss) out e =
    elim (Bool-cases (is_unknown (infer_type_from_topic topic))) [
      | inl unknown ↦ (bytes "cannot infer msg type from topic: " ++ topic, rw unknown refl)
      | inr known ↦
          let (what, failed) =
            parse_symbols_failed ss (emplace topic (infer_type_from_topic topic) out)
              (ground (arith, known)) in
          (what, rw known failed)
    ]

-- What `kfkpb_subscribe` does with a list of symbols, `known` being whether each name tells its type: it
-- makes them the client's subscription, with no time to seek, and counts an epoch; or it returns an
-- error, whose text dangles, and changes nothing.
pub data Outcome (ss : List Text) (c : Client) (self : Api) : Bool → K × Api → Type 0 where
  subscribed :
      (c' : Client)
      → ((t : Text)
          → type_of_topic c'.topic_types t
            ≡ (if mem t ss then infer_type_from_topic t else MsgType.unknown))
      → c'.seek_from_ms ≡ none
      → c'.cfg_epoch ≡ c.cfg_epoch + 1
      → Outcome ss c self true (K.null, record self { client = some c' })
  not_taken : Outcome ss c self false (K.stale_error, self)

-- With a client and the handle of `kfkpb_init`, `kfkpb_subscribe` of a list of symbols whose names all tell
-- their types returns null, and the client then finds for each of these topics the type that its name
-- tells, for every other topic none, seeks no time, and has a new epoch; of any other list of symbols
-- it returns an error and changes nothing.
pub subscribe_lem :
    (ss : List Text) (self : Api) {c : Client}
    → self.client ≡ some c
    → Outcome ss c self (all_known ss) (Qapi.subscribe (K.int Qapi.handle) (K.symbols ss) self)
unfolding Qapi.subscribe Qapi.parse_topics Qapi.applied Kfkpb.subscribe
subscribe_lem ss self {c} e = by (all_known ss) refl
  where
    run :
        (parsed : Call (List (Text × MsgType)))
        → Qapi.parse_symbols ss [] ≡ parsed
        → Qapi.subscribe (K.int Qapi.handle) (K.symbols ss) self
          ≡ Qapi.applied Kfkpb.subscribe parsed c self
    run parsed p = rw (e, p) refl

    by :
        (known : Bool)
        → all_known ss ≡ known
        → Outcome ss c self known (Qapi.subscribe (K.int Qapi.handle) (K.symbols ss) self)
    by true k =
        let (topics, parsed, types) = parse_symbols_lem ss [] k in
        subst (Outcome ss c self true) (sym (run (returned topics) parsed)) (
          subscribed (Kfkpb.subscribe topics c) (λ t. type_of_topic_found topics t ∙ types t) refl
            refl)
    by false k =
        let (what, failed) = parse_symbols_failed ss [] k in
        subst (Outcome ss c self false) (sym (run (raised what) failed)) not_taken
