-- ===== src/Bitefficient/Parser/Reserved.antt =====
-- Parameters whose name is that of a field which is no text.
use multiagent_fipa_acl.Bitefficient.Times.{CTime}
use multiagent_fipa_acl.Base.{
  nat_eq, Text, text_eq, codes, All, bad_get, err, ◌≡◌, refl, List, [], ◌∷◌,
}
use multiagent_fipa_acl.Message.{AclMessage}
use multiagent_fipa_acl.Bitefficient.Grammar.Message.{Parameter, text_value}
use multiagent_fipa_acl.Bitefficient.Parser.{
  build_predef_message_parameters, build_parameter, build_parameters,
}

abbrev pub reserved_names : List Text
reserved_names =
    codes "sender" ∷ codes "receiver" ∷ codes "content" ∷ codes "reply-by" ∷ codes "reply-to" ∷ []

module _ (c_time : CTime) where
  -- The message when `build_parameters` comes to a parameter with a reserved name and a text.
  abbrev pub IsRefused : Text → Type 0
  IsRefused name =
      (value : Text) (rest : List Parameter) (m : AclMessage)
      → build_parameters c_time ((record { name = name; value = text_value value }) ∷ rest) m
        ≡ (m, err bad_get)

  -- A user-defined parameter with the name of a field that is no text is not taken as a
  -- user-defined one: building the parameters stops there with `boost::bad_get`, whatever follows,
  -- and the message is as it was.
  pub build_parameters-reserved : All IsRefused reserved_names
  unfolding build_parameters build_parameter build_predef_message_parameters
  build_parameters-reserved = (
    λ value rest m. refl,
    (
      λ value rest m. refl,
      (λ value rest m. refl, (λ value rest m. refl, (λ value rest m. refl, tt))),
    ),
  )
