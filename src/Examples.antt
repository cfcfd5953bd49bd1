-- ===== src/Examples.antt =====
-- A concrete simulator for the tests: times are whole numbers and a queue is a list of packets.
pub mod States
pub mod PrioStates
pub mod KernelStates
pub mod WfqKernelStates
mod KernelWitnesses
mod PrioWitnesses
mod Witnesses
use mathlib.Core.Path.{refl}
use Prim.Native.String.{String}
use text.Mathlib.Text.{◌==◌ as str_eq}
use native.Mathlib.Nat.{mul-le-mul_right}
use mq_ecn.Common.{
  ℕ, zero, suc, ◌+◌, ◌-◌, ◌*◌, ◌/◌, ◌^◌, ◌<◌, ◌≤◌, ℤ, pos, negsuc, ◌≡◌, arith, Bool, true, false,
  Option, none, List, [], ◌∷◌, ◌++◌, length, head?, tail, ltb, leb, if◌then◌else◌,
}
use mq_ecn.Common.{Result, ok}
use mq_ecn.Port.{Status, tcl_error}
use mq_ecn.Simulator.{Simulator, Packet, bytes_of}
use mq_ecn.Wfq.Earliest.{IsOrder}
use mq_ecn.Port.Threshold.{Arithmetic}

abbrev whole : ℤ → ℕ
whole (pos n) = n
whole (negsuc n) = 0

-- The digits that the tests write.
abbrev digits : String → ℕ
digits s = if str_eq s "1" then 1 else if str_eq s "3000" then 3000 else 0

abbrev pub sim : Simulator
sim = record {
  Double = ℕ;
  of_int = whole;
  literal = λ m k. m / (10 ^ k);
  add = λ a b. a + b;
  sub = λ a b. a - b;
  mul = λ a b. a * b;
  div = λ a b. a / b;
  pow = λ a b. a ^ b;
  lt = ltb;
  le = leb;
  truncate = pos;
  ldbl_max = 1000000000000;
  Queue = List (Packet ℕ);
  new_queue = [];
  enque = λ p q. q ++ (p ∷ []);
  deque = head?;
  after_deque = tail;
  head = head?;
  packets = length;
  byte_length = bytes_of;
  contents = λ q. q;
  contents-new = refl;
  contents-enque = λ p q. refl;
  deque-eq = λ q. refl;
  contents-after = λ q. refl;
  head-eq = λ q. refl;
  packets-eq = λ q. refl;
  bytes-eq = λ q. refl;
  atoi = λ s. pos (digits s);
  atof = digits;
  get_channel = λ s. none;
}

-- A full-sized packet of priority `prio`.
abbrev pub packet : ℕ → Packet ℕ
packet prio = record { size = 1500; prio = pos prio; ect = true; ce = false; timestamp = 0 }

trans_ltb : (a b c : ℕ) → ltb a b ≡ true → ltb b c ≡ true → ltb a c ≡ true
trans_ltb a b c h k = ground arith

irrefl_ltb : (a : ℕ) → ltb a a ≡ false
irrefl_ltb a = ground arith

pub sim-IsOrder : IsOrder sim
sim-IsOrder = record { lt_trans = trans_ltb; lt_irrefl = irrefl_ltb }

le_ltb : (a b c : ℕ) → leb a b ≡ true → ltb b c ≡ true → ltb a c ≡ true
le_ltb a b c h k = ground arith

le_leb : (a b : ℕ) → ltb a b ≡ true → leb a a ≡ true
le_leb a b h = ground arith

leb_of_le : (a b : ℕ) → a ≤ b → leb a b ≡ true
leb_of_le a b h = ground arith

le_of_leb : (a b : ℕ) → leb a b ≡ true → a ≤ b
le_of_leb a b h = ground arith

none_below_one : (x : ℕ) → ltb x 1 ≡ true → x ≡ 0
none_below_one x h = ground arith

pub sim-Arithmetic : Arithmetic sim
sim-Arithmetic = record {
  one_mul = λ t. omega arith;
  le_refl = le_leb;
  shrinks = λ x t h _ _. rw (none_below_one x h) (leb_of_le (0 * t) t (omega arith));
  mul_le = λ a b n _ h. leb_of_le _ _ (mul-le-mul_right n (le_of_leb a b h));
  le_lt = le_ltb;
}

-- A `Queue::command` that knows no command.
abbrev pub no_command : {S : Type 0} → S → List String → Result (Status × S)
no_command s args = ok (tcl_error, s)
