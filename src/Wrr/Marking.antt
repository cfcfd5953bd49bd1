-- ===== src/Wrr/Marking.antt =====
-- When `MarkingECN` of `WRR` marks.
use mq_ecn.Common.{◌<◌, ◌≡◌, ◌⊎◌, inl, inr, true}
use mq_ecn.Simulator.{Simulator}
use mq_ecn.Port.{exceeds, mq_marking_rr, pie_marking}
use mq_ecn.Port.Threshold.{Arithmetic, IsPositive, exceeds-scaled}
use mq_ecn.Wrr.{Slot, Wrr, slot_bytes, marks, rr_thresh, pie_thresh}

module _ (ns : Simulator) where
  -- The threshold of a queue moves with the traffic.
  abbrev pub IsDynamicWrr : Wrr ns → Type 0
  IsDynamicWrr s = (s.marking_scheme ≡ mq_marking_rr) ⊎ (s.marking_scheme ≡ pie_marking)

  -- If the arithmetic of doubles has the laws of `Arithmetic`, the threshold of the port is
  -- positive and finite, the mean packet size is positive and the scheme is MQ_MARKING_RR or
  -- PIE_MARKING, then `MarkingECN` of WRR marks whenever the bytes of the queue alone exceed
  -- the threshold of the port: a scaled threshold is never above it.
  pub marks-IsDynamicWrr :
      (s : Wrr ns) (x : Slot ns)
      → Arithmetic ns
      → IsPositive ns s.port_thresh
      → 0 < s.mean_pktsize
      → IsDynamicWrr s
      → exceeds ns (slot_bytes ns x) s.port_thresh s.mean_pktsize ≡ true
      → marks ns s x ≡ true
  unfolding marks rr_thresh pie_thresh
  marks-IsDynamicWrr s x a t m (inl e) h =
      rw e (exceeds-scaled ns (slot_bytes ns x) s.mean_pktsize _ s.port_thresh _ a t m h)
  marks-IsDynamicWrr s x a t m (inr (e)) h =
      rw e (exceeds-scaled ns (slot_bytes ns x) s.mean_pktsize _ s.port_thresh _ a t m h)
