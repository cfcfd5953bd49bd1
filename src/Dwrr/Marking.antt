-- ===== src/Dwrr/Marking.antt =====
-- When `MarkingECN` of `DWRR` marks.
use mq_ecn.Common.{◌<◌, ◌≡◌, ◌⊎◌, inl, inr, true}
use mq_ecn.Simulator.{Simulator}
use mq_ecn.Port.{exceeds, mq_marking_gener, mq_marking_rr, pie_marking}
use mq_ecn.Port.Threshold.{Arithmetic, IsPositive, exceeds-scaled}
use mq_ecn.Dwrr.{Slot, Dwrr, slot_bytes, marks, gener_thresh, rr_thresh, pie_thresh}

module _ (ns : Simulator) where
  -- The threshold of a queue moves with the traffic.
  abbrev pub IsDynamicDwrr : Dwrr ns → Type 0
  IsDynamicDwrr s =
      (s.marking_scheme ≡ mq_marking_gener)
      ⊎ (s.marking_scheme ≡ mq_marking_rr)
      ⊎ (s.marking_scheme ≡ pie_marking)

  -- If the arithmetic of doubles has the laws of `Arithmetic`, the threshold of the port is
  -- positive and finite, the mean packet size is positive and the scheme is MQ_MARKING_GENER,
  -- MQ_MARKING_RR or PIE_MARKING, then `MarkingECN` of DWRR marks whenever the bytes of the
  -- queue alone exceed the threshold of the port: a scaled threshold is never above it.
  pub marks-IsDynamicDwrr :
      (s : Dwrr ns) (x : Slot ns)
      → Arithmetic ns
      → IsPositive ns s.port_thresh
      → 0 < s.mean_pktsize
      → IsDynamicDwrr s
      → exceeds ns (slot_bytes ns x) s.port_thresh s.mean_pktsize ≡ true
      → marks ns s x ≡ true
  unfolding marks gener_thresh rr_thresh pie_thresh
  marks-IsDynamicDwrr s x a t m (inl e) h =
      rw e (exceeds-scaled ns (slot_bytes ns x) s.mean_pktsize _ s.port_thresh _ a t m h)
  marks-IsDynamicDwrr s x a t m (inr (inl e)) h =
      rw e (exceeds-scaled ns (slot_bytes ns x) s.mean_pktsize _ s.port_thresh _ a t m h)
  marks-IsDynamicDwrr s x a t m (inr (inr (e))) h =
      rw e (exceeds-scaled ns (slot_bytes ns x) s.mean_pktsize _ s.port_thresh _ a t m h)
