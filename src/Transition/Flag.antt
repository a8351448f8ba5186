-- ===== src/Transition/Flag.antt =====
-- `validation::Flags` of conversation_monitor/transition.h.
use Prim.Native.Nat.{ℕ}

abbrev pub performative : ℕ
performative = 0x01

abbrev pub sender : ℕ
sender = 0x02

abbrev pub receivers : ℕ
receivers = 0x04

abbrev pub conversation_id : ℕ
conversation_id = 0x08

abbrev pub protocol : ℕ
protocol = 0x10

abbrev pub encoding : ℕ
encoding = 0x20

abbrev pub language : ℕ
language = 0x40

abbrev pub ontology : ℕ
ontology = 0x80

abbrev pub in_reply_to : ℕ
in_reply_to = 0x100

abbrev pub all : ℕ
all = 0xFFFF

-- The flags of `Transition::triggers`, joined by `|`.
abbrev pub standard : ℕ
standard = 0x1F
