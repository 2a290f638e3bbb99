-- ===== src/Config/Queues.antt =====
-- QueueConfig.cpp: which settings are accepted.
use native.Mathlib.Nat.{le-div_iff_mul-le}
use quantas.Common.{
  ℕ, ◌*◌, ◌≤◌, ◌<◌, ◌≡◌, refl, sym, ◌↔◌, inl, inr, Bool, true, List, [], ◌∷◌, arith, leb,
  Bool-cases,
}
use quantas.Common.Predicates.{All}
use quantas.Topology.{PeerAssignment}
use quantas.Topology.Shapes.{Sum-cases}
use quantas.Config.{
  payload_too_large, Section, BoostMqQueueConfig, parse_boost_mq_config, validate_payloads,
  size_max, larger, preflight, prepare_queues,
}

-- What the system has to allow for the queues of an experiment.
pub record AreQueues (create : ℕ → ℕ → Bool) (c : BoostMqQueueConfig) : Type 0 where
  pub control_positive : 0 < c.control_queue_capacity
  pub data_positive : 0 < c.data_queue_capacity
  pub size_positive : 0 < c.max_message_size_bytes
  pub control_fits : c.control_queue_capacity * c.max_message_size_bytes ≤ 18446744073709551615
  pub data_fits : c.data_queue_capacity * c.max_message_size_bytes ≤ 18446744073709551615
  pub control_created : create c.control_queue_capacity c.max_message_size_bytes ≡ true
  pub data_created : create c.data_queue_capacity c.max_message_size_bytes ≡ true

preflight-AreQueues :
    (create : ℕ → ℕ → Bool) (c : BoostMqQueueConfig)
    → preflight create c ≡ inr tt
    → AreQueues create c
unfolding preflight larger
preflight-AreQueues create c e =
    let size = c.max_message_size_bytes in
    let positive : 0 < size = ground (arith, e) in
    let fits_control =
      (le-div_iff_mul-le {k = size} {x = c.control_queue_capacity} {y = size_max} positive).0 in
    let fits_data =
      (le-div_iff_mul-le {k = size} {x = c.data_queue_capacity} {y = size_max} positive).0 in
    record {
      control_positive = ground (arith, e);
      data_positive = ground (arith, e);
      size_positive = positive;
      control_fits = fits_control (ground (arith, e));
      data_fits = fits_data (ground (arith, e));
      control_created = ground (arith, e);
      data_created = ground (arith, e);
    }

AreQueues-preflight :
    (create : ℕ → ℕ → Bool) (c : BoostMqQueueConfig)
    → AreQueues create c
    → preflight create c ≡ inr tt
unfolding preflight larger
AreQueues-preflight create c q =
    let size = c.max_message_size_bytes in
    let control =
      (le-div_iff_mul-le {k = size} {x = c.control_queue_capacity} {y = size_max} q.size_positive).1
        q.control_fits in
    let data_room =
      (le-div_iff_mul-le {k = size} {x = c.data_queue_capacity} {y = size_max} q.size_positive).1
        q.data_fits in
    ground (
      arith, control, data_room, q.control_positive, q.data_positive, q.size_positive,
      q.control_created, q.data_created,
    )

validate_payloads-All :
    (payload_size : PeerAssignment → ℕ) (plan : List PeerAssignment) (c : BoostMqQueueConfig)
    → (validate_payloads payload_size plan c ≡ inr tt)
      ↔ All (λ a. payload_size a ≤ c.max_message_size_bytes) plan
unfolding validate_payloads
validate_payloads-All payload_size [] c = ((λ e. tt), λ e. refl)
validate_payloads-All payload_size (a ∷ plan) c =
    elim (Bool-cases (leb (payload_size a) c.max_message_size_bytes)) [
      | inl fits ↦
          let rest = validate_payloads-All payload_size plan c in
          (
            λ e. (ground (arith, fits), rest.0 (rw (fits, validate_payloads) at e)),
            λ h. rw (fits, validate_payloads) (rest.1 h.1),
          )
      | inr too_large ↦ (
        λ e. absurd (
            let g : inl payload_too_large ≡ inr tt = rw (too_large, validate_payloads) at e in
            cc g),
        λ h. absurd (ground (arith, too_large, h.0)),
      )
    ]

-- The queues of an experiment are accepted, and are those of the settings, exactly if the settings are
-- read without an error, the capacities and the message size are positive and their products fit in 64
-- bits, the system creates both queues, and no assignment is longer than a message.
pub prepare_queues_iff :
    (create : ℕ → ℕ → Bool) (payload_size : PeerAssignment → ℕ) (s : Section)
    (plan : List PeerAssignment) (peers : ℕ) (c : BoostMqQueueConfig)
    → (prepare_queues create payload_size s plan peers ≡ inr c) ↔ (
        (parse_boost_mq_config s peers ≡ inr c)
        × AreQueues create c
        × All (λ a. payload_size a ≤ c.max_message_size_bytes) plan)
unfolding prepare_queues
prepare_queues_iff create payload_size s plan peers c = (
  λ e. elim (Sum-cases (parse_boost_mq_config s peers)) [
    | inl (err, thrown) ↦
        absurd (let g : inl err ≡ inr c = rw (thrown, prepare_queues) at e in cc g)
    | inr (d, parsed) ↦ elim (Sum-cases (preflight create d)) [
      | inl (err, thrown) ↦
          absurd (let g : inl err ≡ inr c = rw (parsed, prepare_queues, thrown) at e in cc g)
      | inr (unit, ready) ↦ elim (Sum-cases (validate_payloads payload_size plan d)) [
        | inl (err, thrown) ↦
            absurd
              (let g : inl err ≡ inr c = rw (parsed, prepare_queues, ready, thrown) at e in cc g)
        | inr (unit_too, fit) ↦
            let same : inr d ≡ inr c = rw (parsed, prepare_queues, ready, fit) at e in
            let is : d ≡ c = cc same in
            (
              rw (sym is) parsed,
              rw (sym is) (preflight-AreQueues create d ready),
              rw (sym is) ((validate_payloads-All payload_size plan d).0 fit),
            )
      ]
    ]
  ],
  λ h.
      rw
        (
          h.0,
          prepare_queues,
          AreQueues-preflight create c h.1,
          (validate_payloads-All payload_size plan c).1 h.2,
        )
        refl,
)
