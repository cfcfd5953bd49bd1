-- ===== src/Simulator.antt =====
-- What the schedulers use of their surroundings and the repository does not hold: floating-point
-- arithmetic, ns-2's `PacketQueue`, and the C and Tcl functions behind `command`.
use Prim.Native.String.{String}
use mq_ecn.Common.{ℕ, ◌+◌, ℤ, pos, ◌≡◌, Bool, List, [], ◌∷◌, ◌++◌, Option, length, head?, tail}

-- The header fields that the schedulers read and write: `hdr_cmn::size()` and `timestamp()`,
-- `hdr_ip::prio()`, `hdr_flags::ect()` and `ce()`.
pub record Packet (Double : Type 0) : Type 0 where
  pub size : ℕ
  pub prio : ℤ
  pub ect : Bool
  pub ce : Bool
  pub timestamp : Double

-- The bytes of a sequence of packets.
abbrev pub bytes_of : {D : Type 0} → List (Packet D) → ℕ
bytes_of [] = 0
bytes_of (p ∷ ps) = p.size + bytes_of ps

-- A `Double` is any type with these operations; no law of them is assumed here.
-- A `Queue` is a FIFO of packets that keeps its length in packets and in bytes; `contents` is the
-- sequence that it holds, oldest first, and the laws say what ns-2 documents of each operation.
pub record Simulator : Type 1 where
  pub Double : Type 0
  pub of_int : ℤ → Double
  pub literal : ℕ → ℕ → Double
  pub add : Double → Double → Double
  pub sub : Double → Double → Double
  pub mul : Double → Double → Double
  pub div : Double → Double → Double
  pub pow : Double → Double → Double
  pub lt : Double → Double → Bool
  pub le : Double → Double → Bool
  pub truncate : Double → ℤ
  pub ldbl_max : Double
  pub Queue : Type 0
  pub new_queue : Queue
  pub enque : Packet Double → Queue → Queue
  pub deque : Queue → Option (Packet Double)
  pub after_deque : Queue → Queue
  pub head : Queue → Option (Packet Double)
  pub packets : Queue → ℕ
  pub byte_length : Queue → ℕ
  pub contents : Queue → List (Packet Double)
  pub contents-new : contents new_queue ≡ []
  pub contents-enque :
      (p : Packet Double) (q : Queue) → contents (enque p q) ≡ contents q ++ (p ∷ [])
  pub deque-eq : (q : Queue) → deque q ≡ head? (contents q)
  pub contents-after : (q : Queue) → contents (after_deque q) ≡ tail (contents q)
  pub head-eq : (q : Queue) → head q ≡ head? (contents q)
  pub packets-eq : (q : Queue) → packets q ≡ length (contents q)
  pub bytes-eq : (q : Queue) → byte_length q ≡ bytes_of (contents q)
  pub atoi : String → ℤ
  pub atof : String → Double
  pub get_channel : String → Option ℕ

module _ (ns : Simulator) where
  -- An `int` where a `double` is expected.
  abbrev pub of_nat : ℕ → ns.Double
  of_nat n = ns.of_int (pos n)

  -- The macro `min(x, 1)` at a double: `(x < 1 ? x : 1)`.
  abbrev pub min_one : ns.Double → ns.Double
  min_one x = elim (ns.lt x (of_nat 1)) [ Bool.true ↦ x | Bool.false ↦ of_nat 1 ]
