-- ===== src/Wfq/Marking.antt =====
-- When `MarkingECN` of `WFQ` marks.
use mq_ecn.Common.{◌<◌, ◌≡◌, ◌⊎◌, inl, inr, true}
use mq_ecn.Simulator.{Simulator}
use mq_ecn.Port.{exceeds, mq_marking_gener, pie_marking}
use mq_ecn.Port.Threshold.{Arithmetic, IsPositive, exceeds-scaled}
use mq_ecn.Wfq.{Slot, Wfq, slot_bytes, marks, gener_thresh, pie_thresh}

module _ (ns : Simulator) where
  -- The threshold of a queue moves with the traffic.
  abbrev pub IsDynamicWfq : Wfq ns → Type 0
  IsDynamicWfq s = (s.marking_scheme ≡ mq_marking_gener) ⊎ (s.marking_scheme ≡ pie_marking)

  -- If the arithmetic of doubles has the laws of `Arithmetic`, the threshold of the port is
  -- positive and finite, the mean packet size is positive and the scheme is MQ_MARKING_GENER
  -- or PIE_MARKING, then `MarkingECN` of WFQ marks whenever the bytes of the queue alone
  -- exceed the threshold of the port: a scaled threshold is never above it.
  pub marks-IsDynamicWfq :
      (s : Wfq ns) (x : Slot ns)
      → Arithmetic ns
      → IsPositive ns s.port_thresh
      → 0 < s.mean_pktsize
      → IsDynamicWfq s
      → exceeds ns (slot_bytes ns x) s.port_thresh s.mean_pktsize ≡ true
      → marks ns s x ≡ true
  unfolding marks gener_thresh pie_thresh
  marks-IsDynamicWfq s x a t m (inl e) h =
      rw e (exceeds-scaled ns (slot_bytes ns x) s.mean_pktsize _ s.port_thresh _ a t m h)
  marks-IsDynamicWfq s x a t m (inr (e)) h =
      rw e (exceeds-scaled ns (slot_bytes ns x) s.mean_pktsize _ s.port_thresh _ a t m h)
