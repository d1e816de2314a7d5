-- ===== src/Config/Bounds.antt =====
-- The bounds that a loaded configuration keeps.
use momo_hdb.Base.{
  ℕ, ◌+◌, ◌<◌, ◌≡◌, true, List, [], ◌∷◌, ◌++◌, Text, bytes, length, length-append, arith, ◌&&◌,
}
use momo_hdb.Base.Int.{ℤ, pos, negsuc, pos_part, neg_part}
use momo_hdb.Yaml.{Yaml, Call, done, let_pass, ◌>>=◌, Ends}
use momo_hdb.Yaml.{Ends-bind, Ends-after, Ends-guard, Ends→, Ends-of_eq}
use momo_hdb.Config
use momo_hdb.Config.{AppConfig, FutuSessionCfg, SubscriptionManagerCfg, DownstreamCfg, SinkCfg}

-- A port that a `uint16_t` holds and that is not 0.
abbrev pub IsPort : ℤ → Type 0
IsPort z = (0 < pos_part z) × (pos_part z < 65536) × (neg_part z ≡ 0)

abbrev pub IsPositive : ℤ → Type 0
IsPositive z = (0 < pos_part z) × (neg_part z ≡ 0)

pub record IsSafe (items : ℕ) (cfg : AppConfig) : Type 0 where
  pub port : IsPort cfg.futu.opend_port
  pub refresh : IsPositive cfg.submanager.refresh_ms
  pub each_downstream : length cfg.downstreams ≡ items

is_port_lem : (z : ℤ) → Config.is_port z ≡ true → IsPort z
is_port_lem (pos n) e = ground arith
is_port_lem (negsuc n) e = cc

is_positive_lem : (z : ℤ) → Config.is_positive z ≡ true → IsPositive z
is_positive_lem (pos n) e = ground arith
is_positive_lem (negsuc n) e = cc

module _ {N : Type 0} (yaml : Yaml N) (file : Text) where
  load_futu-Ends :
      (root : N) → Ends (λ cfg. IsPort cfg.opend_port) (Config.load_futu yaml file root)
  unfolding Config.load_futu
  load_futu-Ends root =
      let P : FutuSessionCfg → Type 0 = λ cfg. IsPort cfg.opend_port in
      Ends-after P (Config.section_at yaml file root _ _ _) _ λ n.
        Ends-after P
          (let_pass (yaml.at_key n (bytes "opend_ip")) >>= λ v.
            Config.require_scalar_as yaml file yaml.as_text v _)
          _
          λ ip.
            Ends-after P
              (let_pass (yaml.at_key n (bytes "opend_port")) >>= λ v.
                Config.require_scalar_as yaml file yaml.as_int v _)
              _ λ port. Ends-guard P (Config.is_port port) _ _ λ good. is_port_lem port good

  load_submanager-Ends :
      (root : N) → Ends (λ cfg. IsPositive cfg.refresh_ms) (Config.load_submanager yaml file root)
  unfolding Config.load_submanager
  load_submanager-Ends root =
      let P : SubscriptionManagerCfg → Type 0 = λ cfg. IsPositive cfg.refresh_ms in
      Ends-after P (Config.section_at yaml file root _ _ _) _ λ n.
        Ends-after P
          (let_pass (yaml.at_key n (bytes "refresh_ms")) >>= λ v.
            Config.require_scalar_as yaml file yaml.as_int v _)
          _
          λ refresh. Ends-guard P (Config.is_positive refresh) _ _ λ good.
            Ends-after P
              (let_pass (yaml.at_key n (bytes "capacity")) >>= λ v.
                Config.optional_scalar_as yaml file yaml.as_size v _ _)
              _
              λ capacity. Ends-after P (Config.overflow_at yaml file n _) _ λ overflow.
                Ends-after P
                  (let_pass (yaml.at_key n (bytes "first_push")) >>= λ v.
                    Config.optional_scalar_as yaml file yaml.as_bool v _ _)
                  _ λ first. is_positive_lem refresh good

  load_downstreams-Ends :
      (i : ℕ) (ds : List N) (sofar : List DownstreamCfg)
      → Ends
          (λ out. length out ≡ length sofar + length ds)
          (Config.load_downstreams yaml file i ds sofar)
  unfolding Config.load_downstreams
  load_downstreams-Ends i [] sofar = omega arith
  load_downstreams-Ends i (d ∷ ds) sofar =
      let P : List DownstreamCfg → Type 0 = λ out. length out ≡ length sofar + length (d ∷ ds) in
      Ends-after P
        (let_pass (yaml.at_key d (bytes "name")) >>= λ v.
          Config.require_scalar_as yaml file yaml.as_text v _)
        _
        λ name.
          Ends-after P
            (let_pass (yaml.at_key d (bytes "type")) >>= λ v.
              Config.require_scalar_as yaml file yaml.as_text v _)
            _
            λ kind. Ends-after P (Config.load_sink yaml file d _ kind) _ λ sink.
              let one : List DownstreamCfg = record { name = name; sink = sink } ∷ [] in
              Ends-of_eq P (Config.load_downstreams yaml file (i + 1) ds (sofar ++ one)) λ out e.
                let ih =
                  Ends→ _ (Config.load_downstreams yaml file (i + 1) ds (sofar ++ one))
                    (load_downstreams-Ends (i + 1) ds (sofar ++ one)) e in
                omega (arith, ih, length-append sofar one)

  load_root-Ends :
      (resolve : Text → Text) (root arr : N)
      → yaml.at_key root (bytes "downstreams") ≡ Call.returned arr
      → Ends (IsSafe (length (yaml.elements arr))) (Config.load_root yaml file resolve root)
  unfolding Config.load_root
  load_root-Ends resolve root arr found =
      let P = IsSafe (length (yaml.elements arr)) in
      Ends-after P (Config.load_logger yaml file root) _ λ logger.
        Ends-bind (λ cfg. IsPort cfg.opend_port) P (Config.load_futu yaml file root) _
          (load_futu-Ends root)
          λ futu port.
            Ends-after P (Config.load_subscription yaml file resolve root) _ λ subscription.
              Ends-bind (λ cfg. IsPositive cfg.refresh_ms) P (Config.load_submanager yaml file root)
                _ (load_submanager-Ends root)
                λ submanager refresh. rw found (
                  Ends-guard P (yaml.is_defined arr && yaml.is_sequence arr) _ _ λ sequence.
                    Ends-bind
                      (λ out.
                        length out ≡ length {A = DownstreamCfg} [] + length (yaml.elements arr))
                      P (Config.load_downstreams yaml file 0 (yaml.elements arr) []) _
                      (load_downstreams-Ends 0 (yaml.elements arr) [])
                      λ downstreams count. record {
                        port = port;
                        refresh = refresh;
                        each_downstream = omega (arith, count);
                      })

  -- A configuration that loads has a port from 1 to 65535, a positive refresh interval, and one
  -- downstream for each element of the file's list.
  pub load_config_lem :
      (resolve : Text → Text) (root arr : N) {cfg : AppConfig}
      → yaml.at_key root (bytes "downstreams") ≡ Call.returned arr
      → Config.load yaml file resolve (Call.returned root) ≡ done cfg
      → IsSafe (length (yaml.elements arr)) cfg
  unfolding Config.load
  load_config_lem resolve root arr found e =
      Ends→ (IsSafe (length (yaml.elements arr))) (Config.load_root yaml file resolve root)
        (load_root-Ends resolve root arr found) e
