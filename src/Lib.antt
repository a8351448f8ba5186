-- ===== src/Lib.antt =====
-- A model of the FIPA agent communication library: messages between agents, the protocols that
-- their exchange follows, and the conversations that are kept about them.
--
-- The program has three parts. src/message_generator holds the data: agent identifiers
-- (agent_id.cpp), parameters (userdef_param.cpp), messages (acl_message.cpp) and the letters that
-- carry encoded messages (acl_envelope.cpp), with the formats that encode them; src/message_parser
-- reads the encodings. The conversation monitor, src/conversation_monitor, holds the behaviour: a
-- conversation (conversation.cpp) hands each message to the state machine of its protocol
-- (statemachine.cpp); the machine's current state (state.cpp) looks for the transition
-- (transition.cpp) that the message triggers, which asks the role mapping (role.cpp) whether sender
-- and receivers are expected; the machine then learns who plays which role, keeps the message in its
-- archive and moves; the conversation tells its observers. A state may hold state machines of sub-
-- conversations, which take the messages of other protocols, and may forward their replies.
--
--   Base           tests, texts, lists, results, maps: what the other files share
--   Pairing        the comparison loops for vectors that agent_id.cpp and acl_message.cpp write out
--   Words          the test for illegal words
--   Agent          src/message_generator/agent_id.cpp, userdef_param.cpp
--   Performative   the performatives of src/message_generator/acl_message.cpp
--   Message        src/message_generator/acl_message.cpp
--   Role           src/conversation_monitor/role.cpp
--   Transition     src/conversation_monitor/transition.cpp
--   State          src/conversation_monitor/state.cpp: State/Messages for transitions and proxied
--                  replies, State/SubConversations for sub-conversations and isFinished
--   Machine        src/conversation_monitor/statemachine.cpp, message_archive.cpp; Machine/Loading
--                  for what statemachine_reader.cpp does with a parsed machine
--   Conversation   src/conversation_monitor/conversation.cpp; Conversation/Update for `update`
--   Monitor        src/conversation_monitor/conversation_monitor.cpp
--   Envelope       src/message_generator/acl_envelope.cpp, received_object.h: Envelope/Letter for
--                  the letter with its extra envelopes, Envelope/Formats for
--                  src/message_generator/message_generator.cpp and
--                  src/message_parser/message_parser.cpp
--   Bitefficient   the bit-efficient encoding of messages: Bitefficient/Format for
--                  src/message_generator/format/bitefficient_message_format.cpp,
--                  Bitefficient/Grammar for src/message_parser/grammar/grammar_common.h and
--                  grammar_bitefficient.h, Bitefficient/Parser for
--                  src/message_parser/bitefficient_message_parser.cpp, Bitefficient/Times for
--                  src/message_parser/date_time.cpp; Bitefficient/RoundTrip for
--                  the encoder, the grammar and the parser together
--   Examples       the theorems at concrete inputs
--
-- A method that changes its object takes the object first and returns the new one; one that may
-- throw returns an outcome, the object as the throw leaves it and a result. The errors are
-- classes: what a handler of the source can tell apart. A failed `assert` and undefined behaviour
-- are the error `aborted`, which no handler catches. Texts are lists of bytes. Numbers are natural
-- numbers, the signed number of sub-conversations an integer with the conversion to `size_t`
-- written out, and the bytes and the 32-bit lengths of the encoding natural numbers with their
-- wrap-around written out; the other arithmetic of the modelled parts counts the members of
-- containers. The loops run over finite containers, by recursion on them; the comparison loops,
-- which start again after each erasure, run on a bound for the erasures, the length of the first
-- vector, which is enough since each erasure shortens it.
--
-- Observers and conversations are shared in the source; here they have numbers for names and the
-- observers are a store, and so are the conversations of a monitor. Each method of a conversation
-- or a monitor holds its lock, so it is one step. The map of the monitor is sorted in the source and
-- a list in order of insertion here.
--
-- A state holds state machines whose states hold state machines. The type of the inner ones is a
-- parameter, with the four methods that a state calls as an interface; `machine_level` makes the
-- machines of one level the inner ones of the next, and level zero has none.
--
-- The encoders are functions from a message to the bytes or an error. The grammars are written over
-- the combinators of Boost.Spirit.Qi, which are not part of the repository: Bitefficient/Qi has them
-- as an interface with the laws that their documentation gives, and Examples/Spirit fills it. Two
-- rules call themselves below themselves; they run on a bound for the nesting, one more than the
-- length of the input, and what is read back from an encoded message is read within it.
--
-- Parameters: `std::regex_match`, the clock, the factory that reads protocol files, the
-- combinators of Boost.Spirit.Qi, the byte order of the machine, `base::Time::toString` and
-- `base::Time::fromMilliseconds`, and the functions of the C library that make a time of a date.
-- The formats and parsers for XML and for strings are not modelled; a letter takes them as arguments
-- too. Not modelled: printing (toString, toXML), the blocking wait for an event, XML files, the
-- encoding of envelopes, string messages, and their grammars.
pub mod Base
pub mod Pairing
pub mod Words
pub mod Agent
pub mod Performative
pub mod Message
pub mod Role
pub mod Transition
pub mod State
pub mod Machine
pub mod Conversation
pub mod Monitor
pub mod Envelope
pub mod Bitefficient
pub mod Examples
