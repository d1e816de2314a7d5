-- ===== src/Qapi/Build.antt =====
-- `build_default_consumer` of momo_subpb/src/kfkpb.cpp, and kfkpb_initConsumer on it. librdkafka's making of a
-- consumer is an interface: `conf_set` gives the text of its error, `create` that of
-- `rd_kafka_new`.
use momo_hdb.Base.{
  All, length, arith, ◌≡◌, refl, ap, ◌∙◌, Option, none, some, List, [], ◌∷◌, ◌++◌, Text, bytes,
}
use momo_hdb.Yaml.{Call, returned, raised}
use momo_hdb.Kfkpb.{Client}
use momo_hdb.Kfkpb.Setup.{default_cfg}
use momo_hdb.Kfkpb.Setup
use momo_hdb.Kfkpb.Setup.Queues.{HasRoom, make_client_lem}
use momo_hdb.Qapi.{K, Api}
use momo_hdb.Qapi

pub record Factory (R : Type 0) : Type 0 where
  pub conf_set : Text → Text → Option Text
  pub create : List (Text × Text) → Call R

abbrev pub default_settings : List (Text × Text)
default_settings =
    (bytes "bootstrap.servers", bytes "192.168.2.209:9092")
    ∷ (bytes "group.id", bytes "momo-subpb-dev")
    ∷ (bytes "enable.auto.commit", bytes "true")
    ∷ (bytes "auto.offset.reset", bytes "earliest")
    ∷ []

module _ {R : Type 0} (kafka : Factory R) where
  abbrev refusal : Text → Text → Text → Text
  refusal k v errstr =
      bytes "rd_kafka_conf_set failed: " ++ (k ++ (bytes "=" ++ (v ++ (bytes " : " ++ errstr))))

  abbrev unless_refused : Text → Text → Option Text → Call (Unit {0}) → Call (Unit {0})
  unless_refused k v none later = later
  unless_refused k v (some errstr) later = raised (refusal k v errstr)

  -- The calls of `set`.
  unfoldable pub set_all : List (Text × Text) → Call (Unit {0})
  set_all [] = returned tt
  set_all ((k, v) ∷ rest) =
      let later = set_all rest in unless_refused k v (kafka.conf_set k v) later

  abbrev made : Call R → Call R
  made (returned rk) = returned rk
  made (raised errstr) = raised (bytes "rd_kafka_new consumer failed: " ++ errstr)

  abbrev then_made : Call (Unit {0}) → Call R
  then_made (returned u) = made (kafka.create default_settings)
  then_made (raised what) = raised what

  unfoldable pub build_default_consumer : Call R
  build_default_consumer = then_made (set_all default_settings)

  abbrev constructed : Option Client → Call Client
  constructed none = raised (bytes "SPSCQueue")
  constructed (some c) = returned c

  -- The `try` block of kfkpb_initConsumer.
  abbrev pub with_consumer : Call R → Call Client
  with_consumer (returned rk) = constructed (Setup.make_client default_cfg)
  with_consumer (raised what) = raised what

  unfoldable pub init_consumer : K → Api → K × Api
  init_consumer conf self = Qapi.init_consumer (with_consumer build_default_consumer) conf self

-- librdkafka takes these settings.
abbrev pub Takes : {R : Type 0} → Factory R → List (Text × Text) → Type 0
Takes kafka [] = Unit
Takes kafka ((k, v) ∷ rest) = (kafka.conf_set k v ≡ none) × Takes kafka rest

module _ {R : Type 0} (kafka : Factory R) where
  set_all_taken :
      (settings : List (Text × Text)) → Takes kafka settings → set_all kafka settings ≡ returned tt
  unfolding set_all
  set_all_taken [] all = refl
  set_all_taken ((k, v) ∷ rest) all = rw (all.0) (set_all_taken rest all.1)

  set_all_refused :
      (before after : List (Text × Text)) (k v errstr : Text)
      → Takes kafka before
      → kafka.conf_set k v ≡ some errstr
      → set_all kafka (before ++ ((k, v) ∷ after)) ≡ raised (refusal kafka k v errstr)
  unfolding set_all
  set_all_refused [] after k v errstr all e = rw e refl
  set_all_refused ((k', v') ∷ before) after k v errstr all e =
      rw (all.0) (set_all_refused before after k v errstr all.1 e)

  initialised :
      (built : Call R) (self : Api)
      → self.client ≡ none
      → Qapi.init_consumer (with_consumer kafka built) K.dict self
        ≡ Qapi.make_client (with_consumer kafka built) self
  unfolding Qapi.init_consumer
  initialised built self e = rw e refl

  -- What librdkafka does with the default settings: it makes a consumer, or fails to, or refuses one of
  -- them, the first that it refuses.
  pub data Behaviour : Type 0 where
    makes :
        (rk : R)
        → Takes kafka default_settings
        → kafka.create default_settings ≡ returned rk
        → Behaviour
    fails :
        (errstr : Text)
        → Takes kafka default_settings
        → kafka.create default_settings ≡ raised errstr
        → Behaviour
    refuses :
        (before after : List (Text × Text)) (k v errstr : Text)
        → default_settings ≡ before ++ ((k, v) ∷ after)
        → Takes kafka before
        → kafka.conf_set k v ≡ some errstr
        → Behaviour

  abbrev pub Answer : Behaviour → Api → K × Api → Type 0
  Answer (makes rk all opens) self r =
      (c : Client) × (r ≡ (K.int Qapi.handle, record self { client = some c }))
      × (length c.raw_qs ≡ 4)
      × (length c.evt_qs ≡ 4)
      × All (HasRoom 20000) c.raw_qs
      × All (HasRoom 20000) c.evt_qs
  Answer (fails errstr all none_made) self r =
      (build_default_consumer kafka ≡ raised (bytes "rd_kafka_new consumer failed: " ++ errstr))
      × (r ≡ (K.stale_error, self))
  Answer (refuses before after k v errstr split all e) self r =
      (build_default_consumer kafka
        ≡ raised (
            bytes "rd_kafka_conf_set failed: "
            ++ (k ++ (bytes "=" ++ (v ++ (bytes " : " ++ errstr))))))
      × (r ≡ (K.stale_error, self))

  -- kfkpb_initConsumer on a dictionary, without a client. Where librdkafka takes the four settings and makes
  -- a consumer, it returns the handle, and there is a client with four queues of each kind, empty and with
  -- room for 20000. Where librdkafka makes none, build_default_consumer throws librdkafka's message; where
  -- librdkafka refuses a setting, a message that names the first one it refuses, with its value and
  -- librdkafka's reason. In both, q gets an error whose text dangles, since `krr` keeps a pointer to
  -- that message in the exception, which is destroyed by then, and the state is as before.
  pub init_consumer_lem :
      (does : Behaviour) (self : Api)
      → self.client ≡ none
      → Answer does self (init_consumer kafka K.dict self)
  unfolding init_consumer build_default_consumer Qapi.make_client
  init_consumer_lem (makes rk all opens) self fresh =
      let (c, made_so, raws, evts, raw_room, evt_room) =
        make_client_lem default_cfg (omega arith) (omega arith) in
      (
        c,
        initialised (build_default_consumer kafka) self fresh
            ∙ rw (set_all_taken default_settings all, opens, made_so) refl,
        raws,
        evts,
        raw_room,
        evt_room,
      )
  init_consumer_lem (fails errstr all none_made) self fresh = (
    rw (set_all_taken default_settings all, none_made) refl,
    initialised (build_default_consumer kafka) self fresh
        ∙ rw (set_all_taken default_settings all, none_made) refl,
  )
  init_consumer_lem (refuses before after k v errstr split all e) self fresh =
      let threw = ap (set_all kafka) split ∙ set_all_refused before after k v errstr all e in
      (
        ap (then_made kafka) threw,
        initialised (build_default_consumer kafka) self fresh
            ∙ ap (λ o. Qapi.make_client (with_consumer kafka (then_made kafka o)) self) threw,
      )
