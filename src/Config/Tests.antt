-- ===== src/Config/Tests.antt =====
-- QueueConfig.cpp on settings of which some are missing, and the theorem there.
use quantas.Common.{ℕ, ◌≤◌, ◌≡◌, refl, ◌↔◌, Bool, inr, [], ◌∷◌, leb}
use quantas.Common.Int.{pos}
use quantas.Common.Predicates.{All}
use quantas.Topology.{unassigned}
use quantas.Config.{
  missing, number, BoostMq, section, BoostMqQueueConfig, setting, parse_boost_mq_config,
  prepare_queues, validate_payloads, preflight, larger,
}
use quantas.Config.Queues.{AreQueues, prepare_queues_iff}

abbrev settings : BoostMq
settings = record {
  data_queue_capacity = number (pos 50);
  max_message_size_bytes = missing;
  ready_timeout_ms = missing;
  control_send_timeout_ms = number (pos 100);
  data_send_timeout_ms = missing;
}

abbrev queues : BoostMqQueueConfig
queues = record {
  control_queue_capacity = 4;
  data_queue_capacity = 50;
  max_message_size_bytes = 4096;
  ready_timeout_ms = 30000;
  control_send_timeout_ms = 100;
  data_send_timeout_ms = 5;
}

abbrev allowed : ℕ → ℕ → Bool
allowed capacity size = leb capacity 100

settings_accepted :
    prepare_queues allowed (λ a. 200) (section settings) (unassigned ∷ []) 4 ≡ inr queues
unfolding prepare_queues parse_boost_mq_config setting validate_payloads preflight larger
settings_accepted = refl

prepare_queues_iff_example :
    (prepare_queues allowed (λ a. 200) (section settings) (unassigned ∷ []) 4 ≡ inr queues) ↔ (
      (parse_boost_mq_config (section settings) 4 ≡ inr queues)
      × AreQueues allowed queues
      × All (λ a. 200 ≤ queues.max_message_size_bytes) (unassigned ∷ []))
prepare_queues_iff_example =
    prepare_queues_iff allowed (λ a. 200) (section settings) (unassigned ∷ []) 4 queues
