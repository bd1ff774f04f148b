-- ===== src/Protocol/Capabilities/NavigationConforming.antt =====
-- The shape of value under which each of these decoders returns: every member that is there and
-- not null has the type that the protocol gives it.
use p4ls.Prelude.{refl, codes}
use p4ls.Json.{Json}
use p4ls.Json.Decode.{Returns, bind-Returns, bind-Returns_inv, Member, bool}
use p4ls.Protocol.Capabilities.Conforming
use p4ls.Protocol.Capabilities.Conforming.{IsBool, bool-Returns, bool-Conforms}
use p4ls.Protocol.Capabilities.Navigation.{
  decode_definition, decode_type_definition, decode_implementation, decode_code_action,
  decode_code_lens, decode_document_link, decode_color_provider, decode_rename,
  decode_publish_diagnostics,
}

module _ (j : Json) where
  open j use {Value}

  pub record DefinitionConforms (v : Value) : Type 0 where
    pub dynamic_registration : Member j (IsBool j) v (codes "dynamicRegistration")

  pub decode_definition-Returns :
      (v : Value) → DefinitionConforms v → Returns (decode_definition j v)
  unfolding decode_definition
  decode_definition-Returns v c =
      bind-Returns
        (Conforming.optional-Returns j (bool j) (bool-Returns j) v _ c.dynamic_registration)
        λ dynamic_registration. (record { dynamic_registration = dynamic_registration }, refl)

  pub decode_definition-Conforms :
      (v : Value) → Returns (decode_definition j v) → DefinitionConforms v
  unfolding decode_definition
  decode_definition-Conforms v r =
      let (a0, e0, r0) = bind-Returns_inv r in
      record {
        dynamic_registration = Conforming.optional-Member j (bool j) (bool-Conforms j) v _ (a0, e0);
      }

  pub record TypeDefinitionConforms (v : Value) : Type 0 where
    pub dynamic_registration : Member j (IsBool j) v (codes "dynamicRegistration")

  pub decode_type_definition-Returns :
      (v : Value) → TypeDefinitionConforms v → Returns (decode_type_definition j v)
  unfolding decode_type_definition
  decode_type_definition-Returns v c =
      bind-Returns
        (Conforming.optional-Returns j (bool j) (bool-Returns j) v _ c.dynamic_registration)
        λ dynamic_registration. (record { dynamic_registration = dynamic_registration }, refl)

  pub decode_type_definition-Conforms :
      (v : Value) → Returns (decode_type_definition j v) → TypeDefinitionConforms v
  unfolding decode_type_definition
  decode_type_definition-Conforms v r =
      let (a0, e0, r0) = bind-Returns_inv r in
      record {
        dynamic_registration = Conforming.optional-Member j (bool j) (bool-Conforms j) v _ (a0, e0);
      }

  pub record ImplementationConforms (v : Value) : Type 0 where
    pub dynamic_registration : Member j (IsBool j) v (codes "dynamicRegistration")

  pub decode_implementation-Returns :
      (v : Value) → ImplementationConforms v → Returns (decode_implementation j v)
  unfolding decode_implementation
  decode_implementation-Returns v c =
      bind-Returns
        (Conforming.optional-Returns j (bool j) (bool-Returns j) v _ c.dynamic_registration)
        λ dynamic_registration. (record { dynamic_registration = dynamic_registration }, refl)

  pub decode_implementation-Conforms :
      (v : Value) → Returns (decode_implementation j v) → ImplementationConforms v
  unfolding decode_implementation
  decode_implementation-Conforms v r =
      let (a0, e0, r0) = bind-Returns_inv r in
      record {
        dynamic_registration = Conforming.optional-Member j (bool j) (bool-Conforms j) v _ (a0, e0);
      }

  pub record CodeActionConforms (v : Value) : Type 0 where
    pub dynamic_registration : Member j (IsBool j) v (codes "dynamicRegistration")

  pub decode_code_action-Returns :
      (v : Value) → CodeActionConforms v → Returns (decode_code_action j v)
  unfolding decode_code_action
  decode_code_action-Returns v c =
      bind-Returns
        (Conforming.optional-Returns j (bool j) (bool-Returns j) v _ c.dynamic_registration)
        λ dynamic_registration. (record { dynamic_registration = dynamic_registration }, refl)

  pub decode_code_action-Conforms :
      (v : Value) → Returns (decode_code_action j v) → CodeActionConforms v
  unfolding decode_code_action
  decode_code_action-Conforms v r =
      let (a0, e0, r0) = bind-Returns_inv r in
      record {
        dynamic_registration = Conforming.optional-Member j (bool j) (bool-Conforms j) v _ (a0, e0);
      }

  pub record CodeLensConforms (v : Value) : Type 0 where
    pub dynamic_registration : Member j (IsBool j) v (codes "dynamicRegistration")

  pub decode_code_lens-Returns : (v : Value) → CodeLensConforms v → Returns (decode_code_lens j v)
  unfolding decode_code_lens
  decode_code_lens-Returns v c =
      bind-Returns
        (Conforming.optional-Returns j (bool j) (bool-Returns j) v _ c.dynamic_registration)
        λ dynamic_registration. (record { dynamic_registration = dynamic_registration }, refl)

  pub decode_code_lens-Conforms : (v : Value) → Returns (decode_code_lens j v) → CodeLensConforms v
  unfolding decode_code_lens
  decode_code_lens-Conforms v r =
      let (a0, e0, r0) = bind-Returns_inv r in
      record {
        dynamic_registration = Conforming.optional-Member j (bool j) (bool-Conforms j) v _ (a0, e0);
      }

  pub record DocumentLinkConforms (v : Value) : Type 0 where
    pub dynamic_registration : Member j (IsBool j) v (codes "dynamicRegistration")

  pub decode_document_link-Returns :
      (v : Value) → DocumentLinkConforms v → Returns (decode_document_link j v)
  unfolding decode_document_link
  decode_document_link-Returns v c =
      bind-Returns
        (Conforming.optional-Returns j (bool j) (bool-Returns j) v _ c.dynamic_registration)
        λ dynamic_registration. (record { dynamic_registration = dynamic_registration }, refl)

  pub decode_document_link-Conforms :
      (v : Value) → Returns (decode_document_link j v) → DocumentLinkConforms v
  unfolding decode_document_link
  decode_document_link-Conforms v r =
      let (a0, e0, r0) = bind-Returns_inv r in
      record {
        dynamic_registration = Conforming.optional-Member j (bool j) (bool-Conforms j) v _ (a0, e0);
      }

  pub record ColorProviderConforms (v : Value) : Type 0 where
    pub dynamic_registration : Member j (IsBool j) v (codes "dynamicRegistration")

  pub decode_color_provider-Returns :
      (v : Value) → ColorProviderConforms v → Returns (decode_color_provider j v)
  unfolding decode_color_provider
  decode_color_provider-Returns v c =
      bind-Returns
        (Conforming.optional-Returns j (bool j) (bool-Returns j) v _ c.dynamic_registration)
        λ dynamic_registration. (record { dynamic_registration = dynamic_registration }, refl)

  pub decode_color_provider-Conforms :
      (v : Value) → Returns (decode_color_provider j v) → ColorProviderConforms v
  unfolding decode_color_provider
  decode_color_provider-Conforms v r =
      let (a0, e0, r0) = bind-Returns_inv r in
      record {
        dynamic_registration = Conforming.optional-Member j (bool j) (bool-Conforms j) v _ (a0, e0);
      }

  pub record RenameConforms (v : Value) : Type 0 where
    pub dynamic_registration : Member j (IsBool j) v (codes "dynamicRegistration")

  pub decode_rename-Returns : (v : Value) → RenameConforms v → Returns (decode_rename j v)
  unfolding decode_rename
  decode_rename-Returns v c =
      bind-Returns
        (Conforming.optional-Returns j (bool j) (bool-Returns j) v _ c.dynamic_registration)
        λ dynamic_registration. (record { dynamic_registration = dynamic_registration }, refl)

  pub decode_rename-Conforms : (v : Value) → Returns (decode_rename j v) → RenameConforms v
  unfolding decode_rename
  decode_rename-Conforms v r =
      let (a0, e0, r0) = bind-Returns_inv r in
      record {
        dynamic_registration = Conforming.optional-Member j (bool j) (bool-Conforms j) v _ (a0, e0);
      }

  pub record PublishDiagnosticsConforms (v : Value) : Type 0 where
    pub related_information : Member j (IsBool j) v (codes "relatedInformation")

  pub decode_publish_diagnostics-Returns :
      (v : Value) → PublishDiagnosticsConforms v → Returns (decode_publish_diagnostics j v)
  unfolding decode_publish_diagnostics
  decode_publish_diagnostics-Returns v c =
      bind-Returns
        (Conforming.optional-Returns j (bool j) (bool-Returns j) v _ c.related_information)
        λ related_information. (record { related_information = related_information }, refl)

  pub decode_publish_diagnostics-Conforms :
      (v : Value) → Returns (decode_publish_diagnostics j v) → PublishDiagnosticsConforms v
  unfolding decode_publish_diagnostics
  decode_publish_diagnostics-Conforms v r =
      let (a0, e0, r0) = bind-Returns_inv r in
      record {
        related_information = Conforming.optional-Member j (bool j) (bool-Conforms j) v _ (a0, e0);
      }
