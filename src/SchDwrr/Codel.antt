-- ===== src/SchDwrr/Codel.antt =====
-- The sojourn time marking of kernel modules/sch_dwrr/main.c: TCN and CoDel.
use mq_ecn.Common.{
  ℕ, ◌*◌, ◌/◌, ◌%◌, ◌^◌, Bool, true, false, ltb, leb, ◌==◌, ◌||◌, ◌&&◌, not, if◌then◌else◌,
}
use mq_ecn.Words.{u32_mod, add32, sub32, sub64, mul64, shr_s64, to_u32}
use mq_ecn.SchDwrr.{Params, max_pkt_bytes, codel_unit}

-- `codel_time_after(a, b)`: the difference is positive as an `s32`.
abbrev pub codel_after : ℕ → ℕ → Bool
codel_after a b = ltb 0 (sub32 a b) && ltb (sub32 a b) 2147483648

abbrev pub codel_after_eq : ℕ → ℕ → Bool
codel_after_eq a b = ltb (sub32 a b) 2147483648

unfoldable pub ns_to_codel_time : ℕ → ℕ
ns_to_codel_time ns = shr_s64 ns codel_unit % u32_mod

-- `tcn_marking`.
unfoldable pub tcn_marks : Params → ℕ → ℕ → Bool
tcn_marks c now tstamp = codel_after (ns_to_codel_time (sub64 now tstamp)) (to_u32 c.tcn_thresh)

-- The fields of a class for CoDel.
pub record Codel : Type 0 where
  pub count : ℕ
  pub lastcount : ℕ
  pub marking : Bool
  pub rec_inv_sqrt : ℕ
  pub first_above_time : ℕ
  pub mark_next : ℕ
  pub ldelay : ℕ

unfoldable pub new_codel : Codel
new_codel = record {
  count = 0;
  lastcount = 0;
  marking = false;
  rec_inv_sqrt = 0;
  first_above_time = 0;
  mark_next = 0;
  ldelay = 0;
}

-- `codel_should_mark`, for a class that holds `bytes`.
unfoldable pub codel_should_mark : Params → ℕ → ℕ → ℕ → Codel → Bool × Codel
codel_should_mark c bytes tstamp now_ns v =
    let now = ns_to_codel_time now_ns in
    let w = record v { ldelay = ns_to_codel_time (sub64 now_ns tstamp) } in
    if codel_after (to_u32 c.codel_target) w.ldelay || leb bytes max_pkt_bytes
    then (false, record w { first_above_time = 0 })
    else if w.first_above_time == 0
    then (false, record w { first_above_time = add32 now (to_u32 c.codel_interval) })
    else (codel_after now w.first_above_time, w)

-- `codel_Newton_step`; `rec_inv_sqrt` is a `u16`.
unfoldable pub newton_step : Codel → Codel
newton_step v =
    let invsqrt = v.rec_inv_sqrt * 65536 % u32_mod in
    let invsqrt2 = invsqrt * invsqrt / 2 ^ 32 % u32_mod in
    let val = sub64 (3 * u32_mod) (v.count * invsqrt2) / 4 in
    record v { rec_inv_sqrt = mul64 val invsqrt / 2 ^ 31 / 65536 % 65536 }

-- `codel_control_law`; `reciprocal_scale(a, b)` is the upper half of the product.
unfoldable pub control_law : ℕ → ℕ → ℕ → ℕ
control_law t interval rec_inv_sqrt = add32 t (interval * (rec_inv_sqrt * 65536 % u32_mod) / 2 ^ 32)

-- The next mark within the marking state.
unfoldable pub next_mark : Params → Codel → Codel
next_mark c v =
    let w = newton_step (record v { count = add32 v.count 1 }) in
    record w { mark_next = control_law w.mark_next (to_u32 c.codel_interval) w.rec_inv_sqrt }

-- The start of the marking state at the time `now`.
unfoldable pub first_mark : Params → ℕ → Codel → Codel
first_mark c now v =
    let delta = sub32 v.count v.lastcount in
    let recent =
      ltb 1 delta && codel_after (to_u32 c.codel_interval * 16 % u32_mod) (sub32 now v.mark_next) in
    let w =
      if recent
      then newton_step (record v { marking = true; count = delta })
      else record v { marking = true; count = 1; rec_inv_sqrt = 65535 } in
    record w {
      lastcount = w.count;
      mark_next = control_law now (to_u32 c.codel_interval) w.rec_inv_sqrt;
    }

-- `codel_marking`: whether the packet is marked.
unfoldable pub codel_marking : Params → ℕ → ℕ → ℕ → Codel → Bool × Codel
codel_marking c bytes tstamp now_ns v =
    let now = ns_to_codel_time now_ns in
    let (mark, w) = codel_should_mark c bytes tstamp now_ns v in
    if w.marking
    then (if not mark
        then (false, record w { marking = false })
        else if codel_after_eq now w.mark_next
        then (true, next_mark c w)
        else (false, w))
    else (if mark then (true, first_mark c now w) else (false, w))
