-- ===== src/Config.antt =====
-- quantas/Common/Concrete/Runtime/Config/RuntimeConfig.cpp and
-- quantas/Common/Concrete/Backends/BoostMq/Control/QueueConfig.cpp: the settings of an experiment, with
-- the errors that are thrown. JSON is read already: a field is missing, a number, or something else.
-- Whether the system can create a queue of a capacity and a message size is the parameter `create`, and
-- the length of a serialized assignment the parameter `payload_size`.
pub mod Queues
pub mod Tests
use quantas.Common.{
  ℕ, zero, suc, ◌-◌, ◌/◌, ◌^◌, Bool, true, false, not, ◌||◌, ◌⊎◌, inl, inr, Option, none, some,
  List, [], ◌∷◌, ltb, leb, ◌==◌, if◌then◌else◌,
}
use quantas.Common.Int.{ℤ, pos, negsuc}
use quantas.Topology.{PeerAssignment}

-- A number of JSON is unsigned exactly if it is not negative.
pub data Field : Type 0 where
  missing other : Field
  number : ℤ → Field

pub data ConfigError : Type 0 where
  no_topology bad_initial_peers bad_rounds bad_tests empty_peer_type bad_done_timeout : ConfigError
  boost_mq_not_object bad_data_capacity bad_message_size bad_ready_timeout : ConfigError
  bad_control_timeout bad_data_timeout payload_too_large zero_size size_overflow not_created :
      ConfigError

abbrev pub Checked : Type 0 → Type 0
Checked A = ConfigError ⊎ A

-- The type of peers is `none` where it is empty.
pub record Experiment : Type 0 where
  pub has_topology : Bool
  pub initial_peers : Field
  pub initial_peer_type : Option ℕ
  pub rounds : Field
  pub tests : Field
  pub done_timeout_ms : Option ℤ

pub record RuntimeExperimentConfig : Type 0 where
  pub initial_peers : ℕ
  pub initial_peer_type : ℕ
  pub rounds : ℕ
  pub tests : ℕ
  pub done_timeout_ms : ℕ

unfoldable pub required_positive_integer : ConfigError → Field → Checked ℕ
required_positive_integer e missing = inl e
required_positive_integer e other = inl e
required_positive_integer e (number (negsuc k)) = inl e
required_positive_integer e (number (pos zero)) = inl e
required_positive_integer e (number (pos (suc k))) = inr (suc k)

-- The default is 30000.
unfoldable pub done_timeout : Option ℤ → Checked ℕ
done_timeout none = inr 30000
done_timeout (some (negsuc k)) = inl bad_done_timeout
done_timeout (some (pos zero)) = inl bad_done_timeout
done_timeout (some (pos (suc k))) = inr (suc k)

abbrev pub and_then : {A B : Type 0} → Checked A → (A → Checked B) → Checked B
and_then (inl e) next = inl e
and_then (inr a) next = next a

unfoldable pub parse_runtime_experiment : Experiment → Checked RuntimeExperimentConfig
unfolding required_positive_integer done_timeout
parse_runtime_experiment x =
    if not x.has_topology
    then inl no_topology
    else and_then (required_positive_integer bad_initial_peers x.initial_peers) (λ peers.
      and_then (required_positive_integer bad_rounds x.rounds) (λ rounds.
        and_then (required_positive_integer bad_tests x.tests) (λ tests. elim x.initial_peer_type [
          | none ↦ inl empty_peer_type
          | some t ↦ and_then (done_timeout x.done_timeout_ms) (λ timeout. inr (record {
            initial_peers = peers;
            initial_peer_type = t;
            rounds = rounds;
            tests = tests;
            done_timeout_ms = timeout;
          }))
        ])))

-- The object "boostMq".
pub record BoostMq : Type 0 where
  pub data_queue_capacity : Field
  pub max_message_size_bytes : Field
  pub ready_timeout_ms : Field
  pub control_send_timeout_ms : Field
  pub data_send_timeout_ms : Field

pub data Section : Type 0 where
  no_section not_an_object : Section
  section : BoostMq → Section

pub record BoostMqQueueConfig : Type 0 where
  pub control_queue_capacity : ℕ
  pub data_queue_capacity : ℕ
  pub max_message_size_bytes : ℕ
  pub ready_timeout_ms : ℕ
  pub control_send_timeout_ms : ℕ
  pub data_send_timeout_ms : ℕ

-- A field that is there is a positive whole number.
unfoldable pub setting : ConfigError → ℕ → Field → Checked ℕ
setting e standard missing = inr standard
setting e standard other = inl e
setting e standard (number (negsuc k)) = inl e
setting e standard (number (pos zero)) = inl e
setting e standard (number (pos (suc k))) = inr (suc k)

abbrev pub standard_config : ℕ → BoostMqQueueConfig
standard_config peers = record {
  control_queue_capacity = peers;
  data_queue_capacity = 1000;
  max_message_size_bytes = 4096;
  ready_timeout_ms = 30000;
  control_send_timeout_ms = 5000;
  data_send_timeout_ms = 5;
}

unfoldable pub parse_boost_mq_config : Section → ℕ → Checked BoostMqQueueConfig
unfolding setting
parse_boost_mq_config no_section peers = inr (standard_config peers)
parse_boost_mq_config not_an_object peers = inl boost_mq_not_object
parse_boost_mq_config (section s) peers =
    and_then (setting bad_data_capacity 1000 s.data_queue_capacity) (λ capacity.
      and_then (setting bad_message_size 4096 s.max_message_size_bytes) (λ size.
        and_then (setting bad_ready_timeout 30000 s.ready_timeout_ms) (λ ready.
          and_then (setting bad_control_timeout 5000 s.control_send_timeout_ms) (λ control.
            and_then (setting bad_data_timeout 5 s.data_send_timeout_ms) (λ data_timeout.
              inr (record {
                control_queue_capacity = peers;
                data_queue_capacity = capacity;
                max_message_size_bytes = size;
                ready_timeout_ms = ready;
                control_send_timeout_ms = control;
                data_send_timeout_ms = data_timeout;
              }))))))

unfoldable pub validate_payloads :
    (PeerAssignment → ℕ) → List PeerAssignment → BoostMqQueueConfig → Checked Unit
validate_payloads payload_size [] c = inr tt
validate_payloads payload_size (a ∷ rest) c =
    if leb (payload_size a) c.max_message_size_bytes
    then validate_payloads payload_size rest c
    else inl payload_too_large

-- std::numeric_limits<std::size_t>::max()
abbrev pub size_max : ℕ
size_max = 18446744073709551615

unfoldable pub larger : ℕ → ℕ → ℕ
larger a b = if ltb a b then b else a

unfoldable pub preflight : (ℕ → ℕ → Bool) → BoostMqQueueConfig → Checked Unit
unfolding larger
preflight create c =
    if c.control_queue_capacity == 0 || c.data_queue_capacity == 0 || c.max_message_size_bytes == 0
    then inl zero_size
    else if ltb (size_max / c.max_message_size_bytes)
        (larger c.control_queue_capacity c.data_queue_capacity)
    then inl size_overflow
    else if not (create c.control_queue_capacity c.max_message_size_bytes)
    then inl not_created
    else if not (create c.data_queue_capacity c.max_message_size_bytes)
    then inl not_created
    else inr tt

-- What the leader does with the settings of an experiment and the assignments of its topology.
unfoldable pub prepare_queues :
    (ℕ → ℕ → Bool)
    → (PeerAssignment → ℕ)
    → Section
    → List PeerAssignment
    → ℕ
    → Checked BoostMqQueueConfig
unfolding parse_boost_mq_config validate_payloads preflight
prepare_queues create payload_size s plan peers = and_then (parse_boost_mq_config s peers) (λ c.
    and_then (preflight create c)
      (λ ready. and_then (validate_payloads payload_size plan c) (λ fits. inr c)))
