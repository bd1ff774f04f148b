-- ===== src/Protocol/Capabilities/HelpConforming.antt =====
-- The shape of value under which each of these decoders returns: every member that is there and
-- not null has the type that the protocol gives it.
use p4ls.Prelude.{refl, codes}
use p4ls.Json.{Json}
use p4ls.Json.Decode.{Returns, bind-Returns, bind-Returns_inv, Member, bool}
use p4ls.Protocol.Capabilities.Lists.{markup_kinds}
use p4ls.Protocol.Capabilities.Conforming
use p4ls.Protocol.Capabilities.Conforming.{
  IsBool, bool-Returns, bool-Conforms, IsStringArray, markup_kinds-Returns, markup_kinds-Conforms,
  IsIntArray, completion_item_kinds-Returns, completion_item_kinds-Conforms,
}
use p4ls.Protocol.Capabilities.Editing.{
  decode_hover, decode_signature_information, decode_signature_help,
}

module _ (j : Json) where
  open j use {Value}

  pub record HoverConforms (v : Value) : Type 0 where
    pub dynamic_registration : Member j (IsBool j) v (codes "dynamicRegistration")
    pub content_format : Member j (IsStringArray j) v (codes "contentFormat")

  pub decode_hover-Returns : (v : Value) → HoverConforms v → Returns (decode_hover j v)
  unfolding decode_hover
  decode_hover-Returns v c =
      let (dynamic_registration, e0) =
        Conforming.optional-Returns j (bool j) (bool-Returns j) v _ c.dynamic_registration in
      let (content_format, e1) =
        Conforming.optional-Returns j (markup_kinds j) (markup_kinds-Returns j) v _
          c.content_format in
      (
        record { dynamic_registration = dynamic_registration; content_format = content_format },
        rw (e0, e1) refl,
      )

  pub decode_hover-Conforms : (v : Value) → Returns (decode_hover j v) → HoverConforms v
  unfolding decode_hover
  decode_hover-Conforms v r =
      let (a0, e0, r0) = bind-Returns_inv r in
      let (a1, e1, r1) = bind-Returns_inv r0 in
      record {
        dynamic_registration = Conforming.optional-Member j (bool j) (bool-Conforms j) v _ (a0, e0);
        content_format =
            Conforming.optional-Member j (markup_kinds j) (markup_kinds-Conforms j) v _ (a1, e1);
      }

  pub record SignatureInformationConforms (v : Value) : Type 0 where
    pub documentation_format : Member j (IsStringArray j) v (codes "documentationFormat")

  pub decode_signature_information-Returns :
      (v : Value) → SignatureInformationConforms v → Returns (decode_signature_information j v)
  unfolding decode_signature_information
  decode_signature_information-Returns v c =
      bind-Returns
        (Conforming.optional-Returns j (markup_kinds j) (markup_kinds-Returns j) v _
          c.documentation_format)
        λ documentation_format. (record { documentation_format = documentation_format }, refl)

  pub decode_signature_information-Conforms :
      (v : Value) → Returns (decode_signature_information j v) → SignatureInformationConforms v
  unfolding decode_signature_information
  decode_signature_information-Conforms v r =
      let (a0, e0, r0) = bind-Returns_inv r in
      record {
        documentation_format =
            Conforming.optional-Member j (markup_kinds j) (markup_kinds-Conforms j) v _ (a0, e0);
      }

  pub record SignatureHelpConforms (v : Value) : Type 0 where
    pub dynamic_registration : Member j (IsBool j) v (codes "dynamicRegistration")
    pub signature_information :
        Member j SignatureInformationConforms v (codes "signatureInformation")

  pub decode_signature_help-Returns :
      (v : Value) → SignatureHelpConforms v → Returns (decode_signature_help j v)
  unfolding decode_signature_help
  decode_signature_help-Returns v c =
      let (dynamic_registration, e0) =
        Conforming.optional-Returns j (bool j) (bool-Returns j) v _ c.dynamic_registration in
      let (signature_information, e1) =
        Conforming.optional-Returns j (decode_signature_information j)
          (decode_signature_information-Returns) v _ c.signature_information in
      (
        record {
          dynamic_registration = dynamic_registration;
          signature_information = signature_information;
        },
        rw (e0, e1) refl,
      )

  pub decode_signature_help-Conforms :
      (v : Value) → Returns (decode_signature_help j v) → SignatureHelpConforms v
  unfolding decode_signature_help
  decode_signature_help-Conforms v r =
      let (a0, e0, r0) = bind-Returns_inv r in
      let (a1, e1, r1) = bind-Returns_inv r0 in
      record {
        dynamic_registration = Conforming.optional-Member j (bool j) (bool-Conforms j) v _ (a0, e0);
        signature_information =
            Conforming.optional-Member j (decode_signature_information j)
              (decode_signature_information-Conforms) v _ (a1, e1);
      }
