-- ===== src/Bitefficient/Format.antt =====
-- message_generator/format/bitefficient_message_format.cpp and the parts of bitefficient_format.cpp
-- that it calls: the bit-efficient encoding of a message. The members of MessageFormat (the use of
-- code tables, the version, the resolver depth) are arguments of the methods that read them; a
-- depth below 1 is 0 here, since the code only tests `depth > 0`.
pub mod Message
use multiagent_fipa_acl.Bitefficient.Decimal.{is_digit}
use multiagent_fipa_acl.Base.{
  if◌then◌else◌, ◌>>=◌, ◌==◌, nat_eq, Text, text_eq, codes, is_empty, Result, runtime_error,
  logic_error, aborted, ok, err, ℕ, zero, suc, ◌+◌, ◌-◌, ◌*◌, ◌%◌, Bool, true, false, not, ◌&&◌,
  List, [], ◌∷◌, ◌++◌,
}
use multiagent_fipa_acl.Agent.{
  get_resolvers, get_userdef_params, get_addresses, AgentId, UserdefParam, get_name,
}
use multiagent_fipa_acl.Bitefficient.Qi.{Host}
use multiagent_fipa_acl.Bitefficient.Reads.{◌+++◌}

-- `MessageFormat`
pub record MessageFormat : Type 0 where
  pub use_code_tables : Bool
  pub update_code_tables : Bool
  pub version : Text
  pub resolver_depth : ℕ

-- `MessageFormat::MessageFormat`
abbrev pub default_format : MessageFormat
default_format = record {
  use_code_tables = false;
  update_code_tables = true;
  version = codes "1.0";
  resolver_depth = 1;
}

-- What the format calls of others: the byte order of the host, and the text of a time as
-- `base::Time::toString(Milliseconds)` gives it.
pub record Printing : Type 0 where
  pub host : Host
  pub time_text : ℕ → Text

-- `getEOFCollection`
abbrev pub eof_collection : Text
eof_collection = 0x01 ∷ []

-- `getBitBinWord`: the tables (the member) must not be in use.
abbrev pub bin_word : Bool → Text → Result Text
bin_word tables sword = if not tables then ok (0x10 ∷ sword ++ 0x00 ∷ []) else err runtime_error

-- `getBitBinString`
abbrev pub bin_string : Bool → Text → Result Text
bin_string tables sword =
    if not tables then ok (0x14 ∷ 0x22 ∷ sword ++ 0x22 ∷ 0x00 ∷ []) else err runtime_error

-- `getBitBinExpression` of a text, with the letter for its base.
abbrev pub bin_expression : Bool → Text → ℕ → Result Text
bin_expression tables sword c =
    if c == 115
    then bin_string tables sword
    else if c == 119
    then bin_word tables sword
    else err runtime_error

-- Calls whose texts are appended one after the other.
abbrev pub each : {A : Type 0} → (A → Result Text) → List A → Result Text
each write [] = ok []
each write (x ∷ xs) = write x +++ each write xs

-- `bitParseParam`
abbrev pub bit_parse_param : Bool → UserdefParam → Result Text
bit_parse_param tables p = bin_word tables p.name +++ bin_expression tables p.value 115

-- `getBitUserdefParams`
abbrev pub bit_userdef_params : Bool → List UserdefParam → Result Text
bit_userdef_params tables params = each (λ p. ok (0x04 ∷ []) +++ bit_parse_param tables p) params

-- `getBinURLCol`
abbrev pub bin_url_col : Bool → List Text → Result Text
bin_url_col tables adrr = each (bin_word tables) adrr +++ ok eof_collection

abbrev pub unless_empty : {A : Type 0} → List A → Result Text → Result Text
unless_empty xs text = if is_empty xs then ok [] else text

-- `getBitAID`, with `getBitResolvers` and `getBitAIDColl` written in at its recursive call.
abbrev pub bit_aid : Bool → ℕ → AgentId → Result Text
bit_aid tables zero aid =
    (ok (0x02 ∷ []) +++ bin_word tables (get_name aid))
    +++ unless_empty (get_addresses aid) (ok (0x02 ∷ []) +++ bin_url_col tables (get_addresses aid))
    +++ unless_empty (get_userdef_params aid) (bit_userdef_params tables (get_userdef_params aid))
    +++ ok eof_collection
bit_aid tables (suc depth) aid =
    (ok (0x02 ∷ []) +++ bin_word tables (get_name aid))
    +++ unless_empty (get_addresses aid) (ok (0x02 ∷ []) +++ bin_url_col tables (get_addresses aid))
    +++ unless_empty (get_resolvers aid)
        (ok (0x03 ∷ []) +++ (each (bit_aid tables depth) (get_resolvers aid) +++ ok eof_collection))
    +++ unless_empty (get_userdef_params aid) (bit_userdef_params tables (get_userdef_params aid))
    +++ ok eof_collection

-- `getBitAIDColl`
abbrev pub bit_aid_coll : Bool → ℕ → List AgentId → Result Text
bit_aid_coll tables depth aids = each (bit_aid tables depth) aids +++ ok eof_collection

-- `getCodedNaturalNumber`: two digits in one byte, the first one in its upper half.
unfoldable pub coded_natural_number : Text → Result Text
coded_natural_number [] = ok []
coded_natural_number (c ∷ []) = if is_digit c then ok ((c - 47) * 16 ∷ []) else err aborted
coded_natural_number (c ∷ d ∷ t) =
    if is_digit c && is_digit d
    then ok (((c - 47) * 16 + (d - 47)) % 256 ∷ []) +++ coded_natural_number t
    else err aborted

-- `getBinDate(const std::string&)` takes the characters two by two.
unfoldable pub bin_date_text : Text → Result Text
bin_date_text [] = ok []
bin_date_text (c ∷ []) = coded_natural_number (c ∷ [])
bin_date_text (c ∷ d ∷ t) = coded_natural_number (c ∷ d ∷ []) +++ bin_date_text t

-- `boost::erase_all` of one character, and `std::string::insert` of one, which throws beyond the
-- end of the string.
unfoldable pub erase_all : ℕ → Text → Text
erase_all c [] = []
erase_all c (d ∷ t) = if d == c then erase_all c t else d ∷ erase_all c t

unfoldable pub insert_at : ℕ → ℕ → Text → Result Text
insert_at zero c t = ok (c ∷ t)
insert_at (suc n) c [] = err logic_error
insert_at (suc n) c (d ∷ t) = ok (d ∷ []) +++ insert_at n c t

-- `getBinDate(const base::Time&)`: the milliseconds get a fourth digit.
unfoldable pub bin_date : Printing → ℕ → Result Text
bin_date env time = do
  text ← insert_at 14 48 (erase_all 45 (erase_all 58 (env.time_text time)))
  bin_date_text text

-- `getBinDateTimeToken`
abbrev pub bin_date_time_token : Printing → ℕ → Result Text
bin_date_time_token env time = ok (0x20 ∷ []) +++ bin_date env time
